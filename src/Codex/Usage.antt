-- ===== src/Codex/Usage.antt =====
-- internal/codex/metrics.go: the token usage since a baseline.
use codex_tempo.Common.{ℕ, ◌≡◌, ◌-◌, ◌<◌, refl, arith}
use codex_tempo.Common.Word.{sub64}
use codex_tempo.Codex.{TokenUsage}
use codex_tempo.Codex.Metrics.{max64, token_delta}

-- Counters that are not negative.
abbrev pub IsCount : TokenUsage → Type 0
IsCount u =
    (u.input_tokens < 9223372036854775808)
    × (u.cached_input_tokens < 9223372036854775808)
    × (u.output_tokens < 9223372036854775808)
    × (u.reasoning_tokens < 9223372036854775808)

max64-sub :
    (a b : ℕ) → a < 9223372036854775808 → b < 9223372036854775808 → max64 0 (sub64 a b) ≡ a - b
unfolding max64
max64-sub a b ha hb = ground (arith, ha, hb)

-- Of counters that are not negative, the usage since the baseline is the difference of each, and 0
-- where a counter is below its baseline, as after a restart of the count.
pub token_delta_lem :
    (current baseline : TokenUsage)
    → IsCount current
    → IsCount baseline
    → token_delta current baseline ≡ record {
      input_tokens = current.input_tokens - baseline.input_tokens;
      cached_input_tokens = current.cached_input_tokens - baseline.cached_input_tokens;
      output_tokens = current.output_tokens - baseline.output_tokens;
      reasoning_tokens = current.reasoning_tokens - baseline.reasoning_tokens;
    }
unfolding token_delta
token_delta_lem current baseline c b =
    rw
      (
        max64-sub current.input_tokens baseline.input_tokens c.0 b.0,
        max64-sub current.cached_input_tokens baseline.cached_input_tokens c.1 b.1,
        max64-sub current.output_tokens baseline.output_tokens c.2 b.2,
        max64-sub current.reasoning_tokens baseline.reasoning_tokens c.3 b.3,
      )
      refl
