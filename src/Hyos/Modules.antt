-- ===== src/Hyos/Modules.antt =====
-- loader/src/hyos: the table of registered modules, and the calls of their callbacks.
use zygisk_next_next.Base.{
  ℕ, zero, suc, ◌+◌, ◌≤◌, ◌<◌, ◌≡◌, ◌≢◌, ◌∙◌, ap, ap₂, refl, true, false, List, [], ◌∷◌, ◌++◌,
  length, length-set, set, take, leb, ◌==◌, some, Bool-cases, inl, inr, ◌⊎◌, arith, map, filter,
  All, not, Bool,
}
use zygisk_next_next.Elf.Maps.{MapEntry}
use zygisk_next_next.Hyos.State.{HyosModule, State, max_modules}
use zygisk_next_next.Hyos.Hooks.{Installer}
use zygisk_next_next.Hyos.Hooks.Kept.{install_hooks-Kept}
use zygisk_next_next.Hyos.Runtime.{
  Status, success, failed, is_newer, calls_of, add_module, register_module, AppArgs, Call,
}

-- The table has its four slots and counts no more.
pub record IsTable (s : State) : Type 0 where
  pub slots : length s.modules ≡ max_modules
  pub counted : s.module_count ≤ max_modules

-- The registered modules, in their order.
abbrev pub registered : State → List HyosModule
registered s = take s.module_count s.modules

take-set :
    (ms : List HyosModule) (i : ℕ) (m : HyosModule)
    → i < length ms
    → take (i + 1) (set ms i m) ≡ take i ms ++ m ∷ []
take-set [] i m h = absurd (omega arith)
take-set (x ∷ ms) zero m h = refl
take-set (x ∷ ms) (suc i) m h =
    let e : suc i + 1 ≡ suc (i + 1) = omega arith in
    rw e (ap (λ (l : List HyosModule). x ∷ l) (take-set ms i m (omega arith)))

add_module-registered :
    (m : HyosModule) (s : State)
    → IsTable s
    → s.module_count < max_modules
    → (registered (add_module m s) ≡ registered s ++ m ∷ []) × IsTable (add_module m s)
unfolding add_module
add_module-registered m s t room =
    let stored = take-set s.modules s.module_count m (omega (arith, t.slots)) in
    let slots : length (set s.modules s.module_count m) ≡ 4 =
      length-set s.modules s.module_count m ∙ t.slots in
    elim (Bool-cases s.in_child) [
      | inl e ↦ rw e (stored, record { slots = slots; counted = omega arith })
      | inr e ↦ rw e (stored, record { slots = slots; counted = omega arith })
    ]

module _ {W : Type 0} (installer : Installer W) where
  -- A success adds the module behind the others; a failure changes nothing.
  abbrev pub Registered : HyosModule → State × W → Status × State × W → Type 0
  Registered m (s, w) (success, s', w') =
      (m.on_app_specialized ≢ 0)
      × (is_newer m.target_api_version ≡ false)
      × (registered s' ≡ registered s ++ m ∷ [])
      × IsTable s'
  Registered m (s, w) (failed, s', w') =
      (s' ≡ s)
      × (w' ≡ w)
      × ((m.on_app_specialized ≡ 0)
          ⊎ (is_newer m.target_api_version ≡ true)
          ⊎ (s.module_count ≡ max_modules))

  -- `registerModule` refuses a module without callback or for a newer API, and a fifth one, and then
  -- changes nothing; any other it adds behind those that are registered, within the four slots.
  pub register_module-Registered :
      (maps : List MapEntry) (m : HyosModule) (s : State) (w : W)
      → IsTable s
      → Registered m (s, w) (register_module installer maps (some m) (s, w))
  unfolding register_module
  register_module-Registered maps m s w t = elim (Bool-cases (m.on_app_specialized == 0)) [
    | inl a ↦ rw a (refl, refl, inl (ground (arith, a)))
    | inr a ↦ elim (Bool-cases (is_newer m.target_api_version)) [
      | inl b ↦ rw (a, b) (refl, refl, inr (inl b))
      | inr b ↦ elim (Bool-cases (leb max_modules s.module_count)) [
        | inl c ↦ rw (a, b, c) (refl, refl, inr (inr (ground (arith, c, t.counted))))
        | inr c ↦
            let (new, table) = add_module-registered m s t (ground (arith, c)) in
            let k = install_hooks-Kept installer maps (add_module m s) w in
            rw (a, b, c)
              (
                ground (arith, a),
                b,
                ap₂ (λ (n : ℕ) (ms : List HyosModule). take n ms) k.module_count k.modules ∙ new,
                record {
                  slots = ap (λ (ms : List HyosModule). length ms) k.modules ∙ table.slots;
                  counted = omega (arith, k.module_count, table.counted);
                },
              )
      ]
    ]
  ]

-- The call of a module's callback.
abbrev pub call_of : AppArgs → HyosModule → Call
call_of args m = record { callback = m.on_app_specialized; args = args }

abbrev pub has_callback : HyosModule → Bool
has_callback m = not (m.on_app_specialized == 0)

pub calls_of_lem :
    (args : AppArgs) (ms : List HyosModule)
    → calls_of args ms ≡ map (call_of args) (filter has_callback ms)
unfolding calls_of
calls_of_lem args [] = refl
calls_of_lem args (m ∷ ms) = elim (Bool-cases (m.on_app_specialized == 0)) [
  | inl e ↦ rw e (calls_of_lem args ms)
  | inr e ↦ rw e (ap (λ (l : List Call). call_of args m ∷ l) (calls_of_lem args ms))
]

pub calls_of-All :
    (args : AppArgs) (ms : List HyosModule)
    → All (λ m. m.on_app_specialized ≢ 0) ms
    → calls_of args ms ≡ map (call_of args) ms
unfolding calls_of
calls_of-All args [] h = refl
calls_of-All args (m ∷ ms) h =
    let e : (m.on_app_specialized == 0) ≡ false = ground (arith, h.0) in
    rw e (ap (λ (l : List Call). call_of args m ∷ l) (calls_of-All args ms h.1))
