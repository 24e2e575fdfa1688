-- ===== src/Trie/Decode.antt =====
-- Decoding of tokens in toktrie/src/toktree.rs, and `parse_numeric_token` of toktrie/src/tokenv.rs.
-- Text that the source formats is the list of its bytes.
pub mod Laws
use llguidance.Prelude.{
  ℕ, zero, suc, ◌+◌, ◌-◌, ◌*◌, ◌/◌, ◌%◌, ◌^◌, Bool, true, false, ◌&&◌, ◌||◌, Option, none, some,
  List, [], ◌∷◌, ◌++◌, length, get_elem?, take, drop, leb, ltb, ◌==◌, if◌then◌else◌, ◌>>=◌, ◌>>◌,
  guard,
}
use llguidance.Trie.{TokTrie, token, special_token_marker}

-- `format!("{n}")`; a number has fewer digits than the fuel.
unfoldable pub digits : ℕ → ℕ → List ℕ
digits zero n = []
digits (suc fuel) n = elim (ltb n 10) [
  | true ↦ (48 + n) ∷ []
  | false ↦ digits fuel (n / 10) ++ (48 + n % 10) ∷ []
]

unfoldable pub decimal : ℕ → List ℕ
unfolding digits
decimal n = digits (suc n) n

-- `format!("[{tok}]")`
unfoldable pub bracketed : ℕ → List ℕ
unfolding decimal
bracketed tok = b'[' ∷ decimal tok ++ b']' ∷ []

-- `!t.is_empty() && t[0] == SPECIAL_TOKEN_MARKER`
abbrev pub has_marker : List ℕ → Bool
has_marker [] = false
has_marker (b ∷ t) = b == special_token_marker

abbrev pub is_empty_token : List ℕ → Bool
is_empty_token [] = true
is_empty_token (b ∷ t) = false

unfoldable pub is_special_token : TokTrie → ℕ → Option Bool
unfolding token
is_special_token self tok = token self tok >>= λ bytes. some (has_marker bytes)

-- `while idx >= 10 { idx /= 10; len += 1; }`
unfoldable pub count_digits : ℕ → ℕ → ℕ → Option ℕ
count_digits zero idx len = if leb 10 idx then none else some len
count_digits (suc fuel) idx len = elim (leb 10 idx) [
  | true ↦ count_digits fuel (idx / 10) (len + 1)
  | false ↦ some len
]

unfoldable pub token_len : TokTrie → ℕ → Option ℕ
unfolding token count_digits
token_len self idx = do
  t ← token self idx
  if is_empty_token t || has_marker t
      then (count_digits idx idx 1 >>= λ len. some (len + 3))
      else some (length t)

-- What one round of the loop of `decode_ext` appends, on the bytes of the token.
unfoldable pub decode_piece : Bool → ℕ → List ℕ → List ℕ
unfolding bracketed
decode_piece include_special tok [] =
    if include_special then b'<' ∷ bracketed tok ++ b'>' ∷ [] else []
decode_piece include_special tok (b ∷ t) =
    if b == special_token_marker then if include_special then t else [] else b ∷ t

unfoldable pub decode_ext : TokTrie → List ℕ → Bool → Option (List ℕ)
unfolding decode_piece
decode_ext self [] include_special = some []
decode_ext self (tok ∷ tokens) include_special = do
  t ← token self tok
  rest ← decode_ext self tokens include_special
  some (decode_piece include_special tok t ++ rest)

unfoldable pub decode : TokTrie → List ℕ → Option (List ℕ)
unfolding decode_ext
decode self tokens = decode_ext self tokens true

unfoldable pub decode_as_special : ℕ → List ℕ
unfolding bracketed
decode_as_special tok = special_token_marker ∷ bracketed tok

unfoldable pub raw_piece : ℕ → List ℕ → List ℕ
unfolding bracketed
raw_piece tok t =
    if is_empty_token t || has_marker t then special_token_marker ∷ bracketed tok else t

unfoldable pub decode_raw : TokTrie → List ℕ → Option (List ℕ)
unfolding raw_piece
decode_raw self [] = some []
decode_raw self (tok ∷ tokens) = do
  t ← token self tok
  rest ← decode_raw self tokens
  some (raw_piece tok t ++ rest)

-- `iter().position(|&x| x == b)`
unfoldable pub position : ℕ → List ℕ → Option ℕ
position b [] = none
position b (x ∷ xs) =
    let rest = position b xs in if x == b then some 0 else (rest >>= λ i. some (suc i))

-- The digits of `parse::<u32>()`, from the value of those before.
unfoldable pub parse_digits : ℕ → List ℕ → Option ℕ
parse_digits n [] = some n
parse_digits n (c ∷ cs) =
    let rest = parse_digits (n * 10 + (c - 48)) cs in
    if leb 48 c && leb c 57 && ltb (n * 10 + (c - 48)) (2 ^ 32) then rest else none

-- `parse::<u32>()` takes a sign `+` and needs a digit.
unfoldable pub parse_u32 : List ℕ → Option ℕ
unfolding parse_digits
parse_u32 [] = none
parse_u32 (c ∷ cs) =
    if c == b'+'
    then if is_empty_token cs then none else parse_digits 0 cs
    else parse_digits 0 (c ∷ cs)

unfoldable pub parse_numeric_token : List ℕ → Option (ℕ × ℕ)
unfolding position parse_u32
parse_numeric_token s = do
  spec_len ← position b']' (take 20 s)
  first ← get_elem? s 0
  guard (first == b'[')
  id ← parse_u32 (take (spec_len - 1) (drop 1 s))
  some (spec_len + 1, id)

-- The loop of `decode_raw_to_decode` over the bytes that are left; each round takes one at least.
unfoldable pub decode_rest : ℕ → TokTrie → List ℕ → Option (List ℕ)
unfolding parse_numeric_token decode
decode_rest fuel self [] = some []
decode_rest zero self (b ∷ bytes) = none
decode_rest (suc fuel) self (b ∷ bytes) = elim (b == special_token_marker) [
  | false ↦ decode_rest fuel self bytes >>= λ rest. some (b ∷ rest)
  | true ↦ elim (parse_numeric_token bytes) [
    | none ↦ decode_rest fuel self bytes >>= λ rest. some (b ∷ rest)
    | some (len, tok) ↦ do
      text ← decode self (tok ∷ [])
      rest ← decode_rest fuel self (drop len bytes)
      some (text ++ rest)
  ]
]

unfoldable pub decode_raw_to_decode : TokTrie → List ℕ → Option (List ℕ)
unfolding decode_rest
decode_raw_to_decode self bytes = decode_rest (length bytes) self bytes
