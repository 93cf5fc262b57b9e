-- ===== src/Postgres/Expiry.antt =====
-- internal/postgres/store.go: the statement of `Runs` that ends the runs that were given up, beside
-- `ReconcileOpen` of internal/projector/projector.go, which the client's reports use.
use codex_tempo.Common.{ℕ, ◌*◌, ◌≡◌, refl, List, [], ◌∷◌, arith, All, map}
use codex_tempo.Domain.{Run}
use codex_tempo.Localdb.Stamp.{second}
use codex_tempo.Projector.{close_run, reconcile, reconcile_open}
use codex_tempo.Projector.Runs.{IsConsistent}
use codex_tempo.Postgres.{Database}
use codex_tempo.Postgres.Queries.{run_deadline, expire_run, expire_runs}

-- 90 seconds and 12 hours, as the commands give them.
abbrev pub run_grace : ℕ
run_grace = 90 * second

abbrev pub run_maximum : ℕ
run_maximum = 43200 * second

expire_run-reconcile :
    (run : Run) (now : ℕ)
    → IsConsistent run
    → expire_run now run ≡ reconcile now run_grace run_maximum run
unfolding expire_run reconcile run_deadline
expire_run-reconcile run now c = unfold close_run in ground (arith, c.starts)

map-reconcile :
    (runs : List Run) (now : ℕ)
    → All IsConsistent runs
    → map (expire_run now) runs ≡ reconcile_open runs now run_grace run_maximum
unfolding reconcile_open
map-reconcile [] now c = refl
map-reconcile (run ∷ runs) now c = cc (expire_run-reconcile run now c.0, map-reconcile runs now c.1)

-- On a table of consistent runs the server's statement does what `ReconcileOpen` does to the list of
-- them, with 90 seconds and 12 hours, and changes no other table.
pub expire_runs-reconcile :
    (now : ℕ) (db : Database)
    → All IsConsistent db.runs
    → expire_runs now db ≡ record db { runs = reconcile_open db.runs now run_grace run_maximum }
unfolding expire_runs
expire_runs-reconcile now db c = rw (map-reconcile db.runs now c) refl
