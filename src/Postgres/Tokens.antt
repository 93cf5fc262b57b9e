-- ===== src/Postgres/Tokens.antt =====
-- internal/postgres/store.go: what the comparison of hashes decides.
use Prim.Native.Nat.{bit_or, bit_xor}
use codex_tempo.Common.{ℕ, ◌≡◌, refl, ◌↔◌, true, [], ◌∷◌, arith, length}
use codex_tempo.Common.Text.{Text}
use codex_tempo.Common.Bits.{bit_xor-zero, bit_xor_self, bit_or-zero}
use codex_tempo.Postgres.Machines.{diff_bytes, equal}

diff_bytes-zero :
    (d : ℕ) (a b : Text) → length a ≡ length b → diff_bytes d a b ≡ 0 → (d ≡ 0) × (a ≡ b)
unfolding diff_bytes
diff_bytes-zero d [] [] e h = (h, refl)
diff_bytes-zero d [] (y ∷ b) e h = ground (arith, e)
diff_bytes-zero d (x ∷ a) [] e h = ground (arith, e)
diff_bytes-zero d (x ∷ a) (y ∷ b) e h =
    let (here, rest) = diff_bytes-zero (bit_or d (bit_xor x y)) a b (ground (arith, e)) h in
    let (before, same) = bit_or-zero d (bit_xor x y) here in
    (before, cc (bit_xor-zero x y same, rest))

diff_bytes_self : (a : Text) → diff_bytes 0 a a ≡ 0
unfolding diff_bytes
diff_bytes_self [] = refl
diff_bytes_self (x ∷ a) = rw (bit_xor_self x) (diff_bytes_self a)

-- `equal` is true of two byte slices exactly when they are the same.
pub equal_iff : (a b : Text) → (equal a b ≡ true) ↔ (a ≡ b)
unfolding equal
equal_iff a b = (
  λ h. (diff_bytes-zero 0 a b (ground (arith, h)) (ground (arith, h))).1,
  λ e. rw e (ground (arith, diff_bytes_self b)),
)
