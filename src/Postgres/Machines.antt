-- ===== src/Postgres/Machines.antt =====
-- internal/postgres/store.go: the registration and authentication of machines.
use Prim.Native.Nat.{bit_xor, bit_or}
use codex_tempo.Common.{
  ℕ, Bool, false, Option, none, some, List, [], ◌∷◌, ◌++◌, any, if◌then◌else◌, ◌==◌, ◌/◌, ◌%◌, ◌+◌,
  ltb, length,
}
use codex_tempo.Common.Text.{Text, text_eq}
use codex_tempo.Postgres.{Engine, Machine, Database, first, update, timestamp}

-- `hex.EncodeToString`
abbrev hex_digit : ℕ → ℕ
hex_digit n = if ltb n 10 then 48 + n else 87 + n

unfoldable pub hex : Text → Text
hex [] = []
hex (b ∷ t) = hex_digit (b / 16) ∷ hex_digit (b % 16) ∷ hex t

-- The loop of `equal` over two slices of one length.
unfoldable pub diff_bytes : ℕ → Text → Text → ℕ
diff_bytes diff [] b = diff
diff_bytes diff (x ∷ a) [] = diff
diff_bytes diff (x ∷ a) (y ∷ b) = diff_bytes (bit_or diff (bit_xor x y)) a b

unfoldable pub equal : Text → Text → Bool
unfolding diff_bytes
equal a b = if length a == length b then diff_bytes 0 a b == 0 else false

abbrev pub is_machine : Text → Machine → Bool
is_machine id m = text_eq m.id id

-- `INSERT INTO machines … ON CONFLICT(id) DO UPDATE …`
unfoldable pub upsert_machine : Text → Text → Text → ℕ → List Machine → List Machine
upsert_machine id name hash now machines =
    if any (is_machine id) machines
    then update (is_machine id)
        (λ m. record m { name = name; token_hash = hash; last_seen_at = some now }) machines
    else machines
      ++ record { id = id; name = name; token_hash = hash; created_at = now; last_seen_at = none }
        ∷ []

-- `fresh` is the result of `uuid.NewString`, `secret` the random bytes; the result is the id as it
-- was given and the token, or an error.
unfoldable pub register_machine :
    Engine → ℕ → Text → Text → Text → Text → Database → Option (Text × Text) × Database
unfolding upsert_machine hex
register_machine engine now fresh secret requested name db =
    let id = if text_eq requested [] then fresh else requested in
    let token = hex secret in
    if engine.is_uuid id
    then elim (engine.cast_uuid id) [
      | none ↦ (none, db)
      | some key ↦ (
        some (id, token),
        record db {
          machines = upsert_machine key name (engine.sha256 token) (timestamp now) db.machines;
        },
      )
    ]
    else (none, db)

-- The row that `WHERE id=$1` finds.
unfoldable pub find_machine : Engine → Text → Database → Option Machine
find_machine engine id db = elim (engine.cast_uuid id) [
  | none ↦ none
  | some key ↦ first (is_machine key) db.machines
]

-- Whether there is no error.
unfoldable pub authenticate_machine : Engine → Text → Text → Database → Bool
unfolding find_machine equal
authenticate_machine engine id token db = elim (find_machine engine id db) [
  | none ↦ false
  | some m ↦ equal m.token_hash (engine.sha256 token)
]
