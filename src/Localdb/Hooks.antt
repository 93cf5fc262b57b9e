-- ===== src/Localdb/Hooks.antt =====
-- internal/localdb/store.go: what the intervals of a sequence of hooks look like.
use codex_tempo.Common.{
  ℕ, ◌+◌, ◌≡◌, ◌≤◌, ◌<◌, refl, Option, none, some, List, [], ◌∷◌, arith, ltb, if◌then◌else◌, All,
  All-imp, Bool-cases, ltb→lt, inl, inr, ap,
}
use codex_tempo.Common.Text.{Text, text_eq, text_eq_iff, text_eq_refl}
use codex_tempo.Common.Assoc.{get, get-put, AllEntries, AllEntries-put}
use codex_tempo.Common.Word.{max_int64}
use codex_tempo.Localdb.{HookHeartbeat, HookInterval, Store}
use codex_tempo.Localdb.Beats.{
  store_heartbeat, hook_interval, interval_since, advance_from, advance_hook_heartbeat, add_some,
  advance_all,
}

-- The time of a session's last heartbeat, 0 where it has none.
abbrev last_time : Option HookHeartbeat → ℕ
last_time none = 0
last_time (some h) = h.occurred_at

abbrev pub last_heartbeat : Text → Store → ℕ
last_heartbeat k s = last_time (get k s.hook_heartbeats)

-- Each row carries its key.
abbrev pub HasKeys : Store → Type 0
HasKeys s = AllEntries (λ k h. h.session_id ≡ k) s.hook_heartbeats

get-key :
    (k : Text) (h : HookHeartbeat) (m : List (Text × HookHeartbeat))
    → AllEntries (λ j g. g.session_id ≡ j) m
    → get k m ≡ some h
    → h.session_id ≡ k
unfolding get
get-key k h [] a e = cc
get-key k h ((j, g) ∷ m) a e = ground (arith, get-key k h m a.1, text_eq_iff j k, a.0)

last-store_heartbeat :
    (k : Text) (h : HookHeartbeat) (s : Store)
    → last_heartbeat k (store_heartbeat h s)
      ≡ (if text_eq h.session_id k then h.occurred_at else last_heartbeat k s)
unfolding store_heartbeat
last-store_heartbeat k h s = ground (arith, get-put h.session_id k h s.hook_heartbeats)

-- An interval is of positive length, within the timeout, and lies between the heartbeat of its
-- session before the hook and the one after it.
record IsWork (timeout before after : ℕ) (i : HookInterval) : Type 0 where
  positive : i.started_at < i.ended_at
  within : i.ended_at ≤ i.started_at + timeout
  start : before ≤ i.started_at
  end : i.ended_at ≡ after

since-some :
    (p h : HookHeartbeat) (timeout : ℕ) (i : HookInterval)
    → timeout < max_int64
    → p.occurred_at < h.occurred_at
    → interval_since p h timeout ≡ some i
    → (hook_interval p h ≡ i) × (h.occurred_at ≤ p.occurred_at + timeout)
unfolding interval_since
since-some p h timeout i bound lt e = (ground (arith, lt), ground (arith, bound, lt))

IsWork-from :
    (previous : Option HookHeartbeat) (h : HookHeartbeat) (timeout : ℕ) (s : Store)
    (i : HookInterval)
    → ((p : HookHeartbeat) → previous ≡ some p → p.session_id ≡ h.session_id)
    → timeout < max_int64
    → (advance_from previous h timeout s).0 ≡ some i
    → IsWork timeout (last_time previous) h.occurred_at i
      × (i.session_id ≡ h.session_id)
      × ((advance_from previous h timeout s).1 ≡ store_heartbeat h s)
unfolding advance_from
IsWork-from none h timeout s i own bound e = cc
IsWork-from (some p) h timeout s i own bound e =
    elim (Bool-cases (ltb p.occurred_at h.occurred_at)) [
      | inl q ↦
          let lt = ltb→lt p.occurred_at h.occurred_at q in
          let e' : interval_since p h timeout ≡ some i = ground (arith, q) in
          let c = since-some p h timeout i bound lt e' in
          let same : p.session_id ≡ h.session_id = own p refl in
          unfold hook_interval in
          (
            record {
              positive = ground (arith, c.0, lt);
              within = ground (arith, c.0, c.1);
              start = ground (arith, c.0);
              end = ground (arith, c.0);
            },
            ground (arith, c.0, same),
            rw q refl,
          )
      | inr q ↦ ground (arith, q)
    ]

stored : HookHeartbeat → Store → Option HookHeartbeat
stored h s = get h.session_id s.hook_heartbeats

keys-store_heartbeat : (h : HookHeartbeat) (s : Store) → HasKeys s → HasKeys (store_heartbeat h s)
unfolding store_heartbeat
keys-store_heartbeat h s keys =
    AllEntries-put (λ k g. g.session_id ≡ k) h.session_id h s.hook_heartbeats refl keys

pub keys-from :
    (previous : Option HookHeartbeat) (h : HookHeartbeat) (timeout : ℕ) (s : Store)
    → HasKeys s
    → HasKeys (advance_from previous h timeout s).1
unfolding advance_from
keys-from none h timeout s keys = keys-store_heartbeat h s keys
keys-from (some p) h timeout s keys = elim (Bool-cases (ltb p.occurred_at h.occurred_at)) [
  | inl q ↦ rw q (keys-store_heartbeat h s keys)
  | inr q ↦ rw q keys
]

last-from :
    (previous : Option HookHeartbeat) (h : HookHeartbeat) (timeout : ℕ) (s : Store) (k : Text)
    → get h.session_id s.hook_heartbeats ≡ previous
    → last_heartbeat k s ≤ last_heartbeat k (advance_from previous h timeout s).1
unfolding advance_from
last-from none h timeout s k e =
    ground (arith, last-store_heartbeat k h s, text_eq_iff h.session_id k)
last-from (some p) h timeout s k e =
    ground (arith, last-store_heartbeat k h s, text_eq_iff h.session_id k)

-- Of one session, the first ends before the second starts.
abbrev pub Precedes : HookInterval → HookInterval → Type 0
Precedes i j = i.session_id ≡ j.session_id → i.ended_at ≤ j.started_at

-- Each item precedes all later ones.
abbrev pub Chain : List HookInterval → Type 0
Chain [] = Unit
Chain (i ∷ is) = All (Precedes i) is × Chain is

module _ (timeout : ℕ) (bound : timeout < max_int64) where
  IsWork-advance :
      (h : HookHeartbeat) (s : Store) (i : HookInterval)
      → HasKeys s
      → (advance_hook_heartbeat h timeout s).0 ≡ some i
      → IsWork timeout
          (last_heartbeat i.session_id s)
          (last_heartbeat i.session_id (advance_hook_heartbeat h timeout s).1)
          i
  unfolding advance_hook_heartbeat
  IsWork-advance h s i keys e =
      let w =
        IsWork-from (get h.session_id s.hook_heartbeats) h timeout s i
          (λ p. get-key h.session_id p s.hook_heartbeats keys) bound e in
      rw w.1 (
        rw w.2 (record {
          positive = w.0.positive;
          within = w.0.within;
          start = w.0.start;
          end =
              ground
                (arith, w.0.end, last-store_heartbeat h.session_id h s, text_eq_refl h.session_id);
        }))

  keys-advance :
      (h : HookHeartbeat) (s : Store) → HasKeys s → HasKeys (advance_hook_heartbeat h timeout s).1
  unfolding advance_hook_heartbeat
  keys-advance h s keys = keys-from (get h.session_id s.hook_heartbeats) h timeout s keys

  last-advance :
      (h : HookHeartbeat) (s : Store) (k : Text)
      → last_heartbeat k s ≤ last_heartbeat k (advance_hook_heartbeat h timeout s).1
  unfolding advance_hook_heartbeat
  last-advance h s k = last-from (get h.session_id s.hook_heartbeats) h timeout s k refl

  All-add_some {κ} :
      (P : HookInterval → Type κ) (o : Option HookInterval) (is : List HookInterval)
      → ((i : HookInterval) → o ≡ some i → P i)
      → All P is
      → All P (add_some o is)
  unfolding add_some
  All-add_some P none is f a = a
  All-add_some P (some i) is f a = (f i refl, a)

  -- Positive, within the timeout, and not before the last heartbeat that the store has.
  abbrev IsLater : Store → HookInterval → Type 0
  IsLater s i =
      (i.started_at < i.ended_at)
      × (i.ended_at ≤ i.started_at + timeout)
      × (last_heartbeat i.session_id s ≤ i.started_at)

  advance_all-IsLater :
      (hs : List HookHeartbeat) (s : Store) → HasKeys s → All (IsLater s) (advance_all hs timeout s)
  unfolding advance_all
  advance_all-IsLater [] s keys = tt
  advance_all-IsLater (h ∷ hs) s keys =
      All-add_some (IsLater s) (advance_hook_heartbeat h timeout s).0
        (advance_all hs timeout (advance_hook_heartbeat h timeout s).1)
        (λ i e. let w = IsWork-advance h s i keys e in (w.positive, w.within, w.start))
        (All-imp (λ i (p, q, l). (p, q, omega (arith, l, last-advance h s i.session_id)))
          (advance_all hs timeout (advance_hook_heartbeat h timeout s).1)
          (advance_all-IsLater hs (advance_hook_heartbeat h timeout s).1 (keys-advance h s keys)))

  Chain-add_some :
      (o : Option HookInterval) (is : List HookInterval)
      → ((i : HookInterval) → o ≡ some i → All (Precedes i) is)
      → Chain is
      → Chain (add_some o is)
  unfolding add_some
  Chain-add_some none is f c = c
  Chain-add_some (some i) is f c = (f i refl, c)

  advance_all-Chain :
      (hs : List HookHeartbeat) (s : Store) → HasKeys s → Chain (advance_all hs timeout s)
  unfolding advance_all
  advance_all-Chain [] s keys = tt
  advance_all-Chain (h ∷ hs) s keys =
      let s' = (advance_hook_heartbeat h timeout s).1 in
      Chain-add_some (advance_hook_heartbeat h timeout s).0 (advance_all hs timeout s')
        (λ i e.
          let w = IsWork-advance h s i keys e in
          All-imp (λ j l same. ground (arith, w.end, l.2, ap (λ k. last_heartbeat k s') same))
            (advance_all hs timeout s') (advance_all-IsLater hs s' (keys-advance h s keys)))
        (advance_all-Chain hs s' (keys-advance h s keys))

-- From a table whose rows carry their keys, and with a timeout below the largest Duration, every
-- interval that a sequence of hooks returns has a positive length of at most the timeout, and the
-- intervals of one session come in order of time and do not overlap.
pub advance_all-intervals :
    (hs : List HookHeartbeat) (timeout : ℕ) (s : Store)
    → HasKeys s
    → timeout < max_int64
    → All
        (λ i. (i.started_at < i.ended_at) × (i.ended_at ≤ i.started_at + timeout))
        (advance_all hs timeout s)
      × Chain (advance_all hs timeout s)
advance_all-intervals hs timeout s keys bound = (
  All-imp (λ i l. (l.0, l.1)) (advance_all hs timeout s)
      (advance_all-IsLater timeout bound hs s keys),
  advance_all-Chain timeout bound hs s keys,
)
