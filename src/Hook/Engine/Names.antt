-- ===== src/Hook/Engine/Names.antt =====
-- loader/src/hook/engine.cpp: the names of the engines and the parsers of them.
use zygisk_next_next.Base.{◌≡◌, refl, ◌↔◌, true, Bytes, codes, same, same_iff, some, arith}
use zygisk_next_next.Hook.Engine.{
  Arch, InlineEngine, dobby, PltEngine, lsplt, inline_engine_name, plt_engine_name,
  inline_engine_supported, plt_engine_supported, inline_engine_named, plt_engine_named,
  parse_inline_engine, parse_plt_engine,
}

inline_engine_named-name : (e : InlineEngine) → inline_engine_named (inline_engine_name e) ≡ some e
unfolding inline_engine_named inline_engine_name same
inline_engine_named-name dobby = refl
inline_engine_named-name _ = refl

inline_engine_named_sound :
    (n : Bytes) (e : InlineEngine) → inline_engine_named n ≡ some e → n ≡ inline_engine_name e
unfolding inline_engine_named inline_engine_name
inline_engine_named_sound n e h = ground (
  arith,
  same_iff n (codes "dobby"),
  same_iff n (codes "shadowhook"),
  same_iff n (codes "and64inlinehook"),
  same_iff n (codes "frida-gum"),
  same_iff n (codes "rv64hook"),
  same_iff n (codes "disable"),
)

plt_engine_named-name : (e : PltEngine) → plt_engine_named (plt_engine_name e) ≡ some e
unfolding plt_engine_named plt_engine_name same
plt_engine_named-name lsplt = refl
plt_engine_named-name _ = refl

plt_engine_named_sound :
    (n : Bytes) (e : PltEngine) → plt_engine_named n ≡ some e → n ≡ plt_engine_name e
unfolding plt_engine_named plt_engine_name
plt_engine_named_sound n e h = ground (
  arith,
  same_iff n (codes "lsplt"),
  same_iff n (codes "bytehook"),
  same_iff n (codes "xhook"),
  same_iff n (codes "plti"),
  same_iff n (codes "disable"),
)

-- A text is parsed as an inline engine exactly when it is that engine's name and the processor has
-- the engine.
pub parse_inline_engine_iff :
    (arch : Arch) (n : Bytes) (e : InlineEngine)
    → (parse_inline_engine arch (some n) ≡ some e)
      ↔ (n ≡ inline_engine_name e) × (inline_engine_supported arch e ≡ true)
unfolding parse_inline_engine
parse_inline_engine_iff arch n e = (forth, back)
  where
    back :
        (n ≡ inline_engine_name e) × (inline_engine_supported arch e ≡ true)
        → parse_inline_engine arch (some n) ≡ some e
    back h = rw (h.0, inline_engine_named-name e, h.1)

    forth :
        parse_inline_engine arch (some n) ≡ some e
        → (n ≡ inline_engine_name e) × (inline_engine_supported arch e ≡ true)
    forth h = ground (arith, inline_engine_named_sound n e)

-- The same for PLT engines.
pub parse_plt_engine_iff :
    (arch : Arch) (n : Bytes) (e : PltEngine)
    → (parse_plt_engine arch (some n) ≡ some e)
      ↔ (n ≡ plt_engine_name e) × (plt_engine_supported arch e ≡ true)
unfolding parse_plt_engine
parse_plt_engine_iff arch n e = (forth, back)
  where
    back :
        (n ≡ plt_engine_name e) × (plt_engine_supported arch e ≡ true)
        → parse_plt_engine arch (some n) ≡ some e
    back h = rw (h.0, plt_engine_named-name e, h.1)

    forth :
        parse_plt_engine arch (some n) ≡ some e
        → (n ≡ plt_engine_name e) × (plt_engine_supported arch e ≡ true)
    forth h = ground (arith, plt_engine_named_sound n e)
