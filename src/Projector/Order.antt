-- ===== src/Projector/Order.antt =====
-- The order in which `Project` handles events is a weak order that tells events with different ids
-- apart, so the runs do not depend on the order of arrival.
use codex_tempo.Common.{
  ◌≡◌, refl, ◌⊎◌, ◌≢◌, Bool, true, false, List, arith, ltb, ◌==◌, if◌then◌else◌,
}
use mathlib.Core.List.{Pairwise, Permᴰ}
use mathlib.Core.List.Pairwise
use codex_tempo.Common.Text.{
  Text, text_eq, text_lt, text_eq_iff, text_lt_asymm, text_lt_cotrans, text_lt_total,
}
use codex_tempo.Common.Word.{eq64, lt64}
use codex_tempo.Common.Sort.{IsWeakOrder, apart, sort_by-perm}
use codex_tempo.Domain.{Event}
use codex_tempo.Projector.{EventPayload, event_less, project}

-- What `event_less` decides when the sessions are one.
within_session : Event → Event → Bool
within_session a b =
    if eq64 a.sequence b.sequence
    then (if a.occurred_at == b.occurred_at
        then text_lt a.id b.id
        else ltb a.occurred_at b.occurred_at)
    else lt64 a.sequence b.sequence

event_less-within :
    (a b : Event)
    → event_less a b ≡ (
        if text_eq a.session_id b.session_id
        then within_session a b
        else text_lt a.session_id b.session_id)
unfolding event_less within_session
event_less-within a b = refl

within_asymm : (a b : Event) → within_session a b ≡ true → within_session b a ≡ false
unfolding within_session
within_asymm a b h = ground (arith, text_lt_asymm a.id b.id)

within_cotrans :
    (a b c : Event)
    → within_session a c ≡ true
    → (within_session a b ≡ true) ⊎ (within_session b c ≡ true)
unfolding within_session
within_cotrans a b c h = ground (arith, text_lt_cotrans a.id b.id c.id)

within_total : (a b : Event) → within_session a b ≡ false → within_session b a ≡ false → a.id ≡ b.id
unfolding within_session
within_total a b h k = ground (arith, text_lt_total a.id b.id)

pub event_order : IsWeakOrder event_less
event_order = record {
  asymm = λ a b h. ground (
    arith,
    event_less-within a b,
    event_less-within b a,
    within_asymm a b,
    text_lt_asymm a.session_id b.session_id,
    text_eq_iff a.session_id b.session_id,
    text_eq_iff b.session_id a.session_id,
  );
  cotrans = λ a b c h. ground (
    arith,
    event_less-within a b,
    event_less-within b c,
    event_less-within a c,
    within_cotrans a b c,
    text_lt_cotrans a.session_id b.session_id c.session_id,
    text_lt_total a.session_id b.session_id,
    text_lt_total b.session_id c.session_id,
    text_lt_asymm a.session_id b.session_id,
    text_lt_asymm b.session_id c.session_id,
    text_eq_iff a.session_id b.session_id,
    text_eq_iff b.session_id c.session_id,
    text_eq_iff a.session_id c.session_id,
  );
}

-- Of two events with different ids one comes first.
pub event_less_total : (a b : Event) → event_less a b ≡ false → event_less b a ≡ false → a.id ≡ b.id
event_less_total a b h k = ground (
  arith,
  event_less-within a b,
  event_less-within b a,
  within_total a b,
  text_lt_total a.session_id b.session_id,
  text_eq_iff a.session_id b.session_id,
  text_eq_iff b.session_id a.session_id,
)

events_apart : (a b : Event) → a.id ≢ b.id → apart event_less a b ≡ true
events_apart a b h = ground (arith, event_less_total a b)

-- Events with different ids give the same runs in whatever order they arrive.
pub project-perm :
    (decode : Text → EventPayload) {xs ys : List Event}
    → Permᴰ xs ys
    → Pairwise (λ a b. a.id ≢ b.id) xs
    → project decode xs ≡ project decode ys
unfolding project
project-perm decode p h = rw (sort_by-perm event_order p (Pairwise.imp events_apart h))
