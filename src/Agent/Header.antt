-- ===== src/Agent/Header.antt =====
-- `http.Header` as internal/upboundagent/proxy.go uses it, and `cloneAllowedHeaders`.
pub mod Laws
use Prim.Native.Char.{Char, char, code, IsScalar}
use Prim.Native.String.{[], ◌∷◌}
use mathlib.Core.Logic.{dite}
use native.Mathlib.Decide.{dec_le}
use universal_crossplane.Base.{
  ℕ, ◌+◌, ◌-◌, ◌≤◌, String, Bool, true, false, ◌&&◌, ◌||◌, Option, none, some, List, [], ◌∷◌, ◌++◌,
  arith, eqb, leb, ◌==◌, if◌then◌else◌, contains,
}
use universal_crossplane.Base.Dict.{Dict, lookup, insert}

-- `map[string][]string`
abbrev pub Header : Type 0
Header = Dict (List String)

small-IsScalar : (n : ℕ) → n ≤ 200 → IsScalar n
small-IsScalar n h = ground arith

upper : Char → Char
upper c =
    dite (dec_le b'a' (code c))
      (λ _.
        dite (dec_le (code c) b'z')
          (λ h. char (code c - 32) (small-IsScalar (code c - 32) (omega arith))) (λ _. c))
      (λ _. c)

lower : Char → Char
lower c =
    dite (dec_le b'A' (code c))
      (λ _.
        dite (dec_le (code c) b'Z')
          (λ h. char (code c + 32) (small-IsScalar (code c + 32) (omega arith))) (λ _. c))
      (λ _. c)

abbrev mem : ℕ → List ℕ → Bool
mem c [] = false
mem c (d ∷ ds) = eqb d c || mem c ds

-- `validHeaderFieldByte` of net/textproto: the token characters of RFC 7230.
is_token : ℕ → Bool
is_token c =
    (leb b'0' c && leb c b'9')
    || (leb b'a' c && leb c b'z')
    || (leb b'A' c && leb c b'Z')
    || mem c (
        b'!' ∷ b'#' ∷ b'$' ∷ b'%' ∷ b'&' ∷ 39 ∷ b'*' ∷ b'+' ∷ b'-' ∷ b'.' ∷ b'^' ∷ b'_' ∷ b'`'
        ∷ b'|' ∷ b'~' ∷ [])

all_tokens : String → Bool
all_tokens [] = true
all_tokens (c ∷ s) = is_token (code c) && all_tokens s

-- The flag is set at the start of the key and after a dash.
capitalize : Bool → String → String
capitalize start [] = []
capitalize start (c ∷ s) = (if start then upper c else lower c) ∷ capitalize (eqb (code c) b'-') s

-- `textproto.CanonicalMIMEHeaderKey`
unfoldable pub canonical_key : String → String
unfolding capitalize all_tokens is_token upper lower small-IsScalar dec_le
canonical_key s = if all_tokens s then capitalize true s else s

abbrev pub first : Option (List String) → String
first none = ""
first (some []) = ""
first (some (v ∷ vs)) = v

-- `Header.Get`: the first value of a key, or the empty text.
unfoldable pub get : String → Header → String
unfolding lookup canonical_key
get key h = first (lookup (canonical_key key) h)

abbrev pub all_values : Option (List String) → List String
all_values none = []
all_values (some vs) = vs

-- `Header.Add`
unfoldable pub add : String → String → Header → Header
unfolding lookup insert canonical_key
add key value h = let k = canonical_key key in insert k (all_values (lookup k h) ++ (value ∷ [])) h

-- `Header.Set`
unfoldable pub set : String → String → Header → Header
unfolding insert canonical_key
set key value h = insert (canonical_key key) (value ∷ []) h

abbrev pub allowed_headers : List String
allowed_headers =
    "Content-Type" ∷ "X-Forwarded-For" ∷ "X-Forwarded-Host" ∷ "Accept-Encoding" ∷ "Accept"
    ∷ "User-Agent" ∷ []

-- One round of the loop in `cloneAllowedHeaders`.
clone_header : Header → String → Header → Header
unfolding get add
clone_header from name out = let val = get name from in if val == "" then out else add name val out

-- The loop over `allowedHeaders`, from `out`.
clone_headers : Header → List String → Header → Header
unfolding clone_header
clone_headers from [] out = out
clone_headers from (name ∷ names) out = clone_headers from names (clone_header from name out)

unfoldable pub clone_allowed_headers : Header → Header
unfolding clone_headers
clone_allowed_headers from = clone_headers from allowed_headers []
