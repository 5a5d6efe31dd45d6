-- ===== src/Ref.antt =====
-- pkg/ref/ref.go, with the metadata of Kubernetes objects that the controllers read.
pub mod Keys
use naglfar.Prelude.{
  ℕ, Bool, ◌&&◌, List, [], ◌∷◌, ◌++◌, Option, Str, str_eq, Outcome, ok, panic, ◌==◌, if◌then◌else◌,
}

pub record Ref : Type 0 where
  pub namespace : Str
  pub name : Str
  pub uid : Str

-- metav1.ObjectMeta: `deleting` is a non-zero deletion timestamp, `controller` the UID of the
-- controlling owner.
pub record ObjectMeta : Type 0 where
  pub namespace : Str
  pub name : Str
  pub uid : Str
  pub finalizers : List Str
  pub deleting : Bool
  pub controller : Option Str

unfoldable pub create_ref : ObjectMeta → Ref
create_ref meta = record { namespace = meta.namespace; name = meta.name; uid = meta.uid }

-- ==, on structs of three strings
unfoldable pub ref_eq : Ref → Ref → Bool
ref_eq a b = str_eq a.namespace b.namespace && (str_eq a.name b.name && str_eq a.uid b.uid)

unfoldable pub key : Ref → Str
key r = r.namespace ++ (b'/' ∷ (r.name ++ (b'/' ∷ r.uid)))

-- A byte in front of the first token.
prepend : ℕ → List Str → List Str
prepend c [] = []
prepend c (token ∷ tokens) = (c ∷ token) ∷ tokens

-- strings.Split(s, "/")
pub split : Str → List Str
unfolding prepend
split [] = [] ∷ []
split (c ∷ s) = let rest = split s in if c == b'/' then [] ∷ rest else prepend c rest

of_tokens : List Str → Outcome Ref
of_tokens (namespace ∷ name ∷ uid ∷ []) =
    ok (record { namespace = namespace; name = name; uid = uid })
of_tokens _ = panic

-- The code panics on a key that has not three tokens.
unfoldable pub parse_key : Str → Outcome Ref
unfolding split of_tokens
parse_key k = of_tokens (split k)
