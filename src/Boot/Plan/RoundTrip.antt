-- ===== src/Boot/Plan/RoundTrip.antt =====
-- loader/src/module/plan.cpp against injector/src/plan.rs: a plan that the injector encodes is the
-- plan that the loader parses.
use zygisk_next_next.Base.{
  ◌+◌, ◌-◌, ◌*◌, ◌≤◌, ◌≡◌, refl, ap, ◌∙◌, sym, List, ◌++◌, append_assoc, Bytes, length,
  length-append, drop, some, arith,
}
use zygisk_next_next.Boot.Plan.{
  min_plan_bytes, plan_module_size, Header, PlanModule, Plan, accepted, blob_string, parse_modules,
  parse_body, parse_plan,
}
use zygisk_next_next.Boot.Plan.Encode.{encode}
use zygisk_next_next.Boot.Plan.Fields.{drop-append}
use zygisk_next_next.Boot.Plan.Entries.{IsPlan, read_header-bytes}
use zygisk_next_next.Boot.Plan.Layout.{
  abc, blob-size, blob_of, check_header-passes, debugdata-found, encode-checks, encode-closed,
  entries, header_of, inline-found, length-entry_bytes, length-header_bytes, modules-found,
  plt-found, size, sizes, start,
}

-- The parser's body over a header, entries and a blob that stand one behind the other.
parse_body-parts :
    (h : Header) (s e blob extra i t d : Bytes) (ms : List PlanModule)
    → length s ≡ 60
    → length e ≡ h.module_count * 20
    → h.size ≡ 60 + 20 * h.module_count + length blob
    → blob_string (blob ++ extra) (length blob) h.inline_engine ≡ accepted i
    → blob_string (blob ++ extra) (length blob) h.plt_engine ≡ accepted t
    → blob_string (blob ++ extra) (length blob) h.debugdata ≡ accepted d
    → parse_modules h.module_count (e ++ (blob ++ extra)) (blob ++ extra) (length blob)
      ≡ accepted ms
    → parse_body (s ++ (e ++ (blob ++ extra))) h
      ≡ accepted (record {
        modules = ms;
        inline_engine = i;
        plt_engine = t;
        debugdata = d;
        nonce = h.nonce;
        token = h.token;
      })
unfolding parse_body
parse_body-parts h s e blob extra i t d ms hs he hz hi ht hd hm =
    let behind : drop (min_plan_bytes + h.module_count * plan_module_size)
          (s ++ (e ++ (blob ++ extra)))
        ≡ blob ++ extra =
      rw (← append_assoc)
        (drop-append (s ++ e) (blob ++ extra) _ (omega (arith, length-append s e))) in
    let at_entries : drop min_plan_bytes (s ++ (e ++ (blob ++ extra))) ≡ e ++ (blob ++ extra) =
      drop-append s (e ++ (blob ++ extra)) 60 (sym hs) in
    let room : h.size - min_plan_bytes - h.module_count * plan_module_size ≡ length blob =
      omega arith in
    rw (behind, room, hi, ht, hd, at_entries, hm)

-- Every plan of open descriptors that the injector encodes is parsed to itself, whatever bytes follow
-- it in memory.
pub parse-encode :
    (p : Plan) (raw extra : Bytes)
    → IsPlan p
    → encode p ≡ some raw
    → parse_plan (some (raw ++ extra)) ≡ accepted p
unfolding parse_plan
parse-encode p raw extra ok e =
    let checks = encode-checks p raw e in
    let h : size p ≤ 32768 = omega (arith, checks.2, blob-size p) in
    let small : length (blob_of p) ≤ 32768 = omega (arith, h) in
    let z = sizes p in
    let spread : raw ++ extra ≡ start p ++ (entries p ++ (blob_of p ++ extra)) =
      ap (λ (r : Bytes). r ++ extra) (encode-closed p raw small e)
      ∙ append_assoc (start p) (entries p ++ blob_of p) extra
      ∙ ap (λ (r : Bytes). start p ++ r) (append_assoc (entries p) (blob_of p) extra) in
    let header =
      read_header-bytes p (size p) (header_of p).inline_engine (header_of p).plt_engine
        (header_of p).debugdata (entries p ++ (blob_of p ++ extra)) (omega arith)
        (omega (arith, checks)) ok (omega arith) (omega arith) (omega arith) in
    let body =
      parse_body-parts (header_of p) (start p) (entries p) (blob_of p) extra p.inline_engine
        p.plt_engine p.debugdata p.modules
        (length-header_bytes p (size p) (header_of p).inline_engine (header_of p).plt_engine
          (header_of p).debugdata ok.token_size)
        (length-entry_bytes p.modules (length (abc p))) refl (inline-found p extra)
        (plt-found p extra) (debugdata-found p extra) (modules-found p extra ok checks.1 small) in
    rw spread (rw (header, check_header-passes p checks.0 h) body)
