-- ===== src/Ref/Keys.antt =====
-- Keys of refs: printing and parsing, and when two refs have one key.
use naglfar.Prelude.{
  true, false, [], ◌∷◌, ◌++◌, Str, str_eq_iff, ok, ok-injective, ◌≡◌, ◌↔◌, refl, sym, ap, ◌∙◌,
  arith, All, ◌==◌,
}
use naglfar.Ref.{Ref, key, split, of_tokens, parse_key, ref_eq}

-- No byte is a slash.
abbrev pub IsToken : Str → Type 0
IsToken = All (λ c. (c == b'/') ≡ false)

abbrev pub IsPlain : Ref → Type 0
IsPlain r = IsToken r.namespace × IsToken r.name × IsToken r.uid

split-append : (s t : Str) → IsToken s → split (s ++ (b'/' ∷ t)) ≡ s ∷ split t
unfolding split
split-append [] t h = refl
split-append (c ∷ s) t h = rw (split-append s t h.1, h.0)

split-IsToken : (s : Str) → IsToken s → split s ≡ s ∷ []
unfolding split
split-IsToken [] h = refl
split-IsToken (c ∷ s) h = rw (split-IsToken s h.1, h.0)

-- A ref none of whose parts holds a slash is read back from its key: `ParseKey` returns it and does
-- not panic.
pub parse_key-key : (r : Ref) → IsPlain r → parse_key (key r) ≡ ok r
unfolding parse_key key of_tokens
parse_key-key r (n, m, u) =
    rw (split-append r.namespace _ n, split-append r.name r.uid m, split-IsToken r.uid u)

-- Two refs without slashes have the same key only if they are the same.
pub key-injective : (a b : Ref) → IsPlain a → IsPlain b → key a ≡ key b → a ≡ b
key-injective a b ha hb e =
    ok-injective (sym (parse_key-key a ha) ∙ ap parse_key e ∙ parse_key-key b hb)

pub ref_eq_iff : (a b : Ref) → (ref_eq a b ≡ true) ↔ (a ≡ b)
unfolding ref_eq
ref_eq_iff a b =
    ground
      (arith, str_eq_iff a.namespace b.namespace, str_eq_iff a.name b.name, str_eq_iff a.uid b.uid)
