-- ===== src/Agent/Header/Laws.antt =====
-- What `cloneAllowedHeaders` lets through, key by key.
use universal_crossplane.Base.{
  String, ◌≡◌, refl, inl, inr, false, not, ◌&&◌, none, some, List, [], ◌∷◌, arith, eq_iff, ◌==◌,
  if◌then◌else◌, contains, text-cases, Bool-cases,
}
use universal_crossplane.Base.Dict.{lookup, insert, lookup-insert}
use universal_crossplane.Agent.Header.{
  Header, canonical_key, get, add, allowed_headers, clone_header, clone_headers,
  clone_allowed_headers,
}

-- The names are canonical and distinct, and `out` has none of them yet.
abbrev Fresh : List String → Header → Type 0
Fresh [] out = Unit
Fresh (n ∷ ns) out =
    (contains ns n ≡ false) × (lookup n out ≡ none) × (canonical_key n ≡ n) × Fresh ns out

Fresh-insert :
    (ns : List String) (n : String) (vs : List String) (out : Header)
    → contains ns n ≡ false
    → Fresh ns out
    → Fresh ns (insert n vs out)
Fresh-insert [] n vs out absent fresh = tt
Fresh-insert (m ∷ ns) n vs out absent (distinct, unset, canonical, fresh) = (
  distinct,
  rw lookup-insert (ground (arith, eq_iff n m, eq_iff m n)),
  canonical,
  Fresh-insert ns n vs out (ground arith) fresh,
)

module _ (from : Header) where
  clone_header-insert :
      (n : String) (out : Header)
      → lookup n out ≡ none
      → canonical_key n ≡ n
      → clone_header from n out ≡ (if get n from == "" then out else insert n (get n from ∷ []) out)
  unfolding clone_header add
  clone_header-insert n out unset canonical = rw (canonical, unset)

  Fresh-clone_header :
      (n : String) (ns : List String) (out : Header)
      → Fresh (n ∷ ns) out
      → Fresh ns (clone_header from n out)
  Fresh-clone_header n ns out (distinct, unset, canonical, fresh) =
      rw (clone_header-insert n out unset canonical) (elim (Bool-cases (get n from == "")) [
        | inl empty ↦ rw empty fresh
        | inr given ↦ rw given (Fresh-insert ns n (get n from ∷ []) out distinct fresh)
      ])

  lookup-clone_header :
      (k n : String) (out : Header)
      → lookup n out ≡ none
      → canonical_key n ≡ n
      → lookup k (clone_header from n out)
        ≡ (if n == k && not (get n from == "") then some (get n from ∷ []) else lookup k out)
  lookup-clone_header k n out unset canonical =
      rw (clone_header-insert n out unset canonical)
        (ground (arith, lookup-insert n k (get n from ∷ []) out))

  lookup-clone_headers :
      (k : String) (ns : List String) (out : Header)
      → Fresh ns out
      → lookup k (clone_headers from ns out)
        ≡ (if contains ns k && not (get k from == "") then some (get k from ∷ []) else lookup k out)
  unfolding clone_headers
  lookup-clone_headers k [] out fresh = refl
  lookup-clone_headers k (n ∷ ns) out (distinct, unset, canonical, fresh) =
      rw
        (
          lookup-clone_headers k ns (clone_header from n out)
              (Fresh-clone_header n ns out (distinct, unset, canonical, fresh)),
          lookup-clone_header k n out unset canonical,
        )
        (elim (text-cases n k) [
          | inl (same, e) ↦ rw (same, ← e) (ground arith)
          | inr (other, _) ↦ rw other (ground arith)
        ])

  -- A key of the cloned headers is an allowed one for which the original has a first value that is
  -- not empty, and it holds just that value; no other key is there.
  pub lookup-clone_allowed_headers :
      (k : String)
      → lookup k (clone_allowed_headers from) ≡ (
          if contains allowed_headers k && not (get k from == "")
          then some (get k from ∷ [])
          else none)
  unfolding clone_allowed_headers
  lookup-clone_allowed_headers k = lookup-clone_headers k allowed_headers [] (ground arith)
