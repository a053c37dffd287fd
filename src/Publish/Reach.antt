-- ===== src/Publish/Reach.antt =====
-- What every sequence of calls of internal/store/postgres/publish/store.go keeps of its tables.
use imgsrv.Prelude.{List, [], ◌∷◌}
use imgsrv.Publish.Tables.{Db}
use imgsrv.Publish.Keys.{IsKeyed, Change-IsKeyed}
use imgsrv.Publish.Order.{IsOrdered, Change-IsOrdered}
use imgsrv.Publish.Moves.{Op, apply, run}
use imgsrv.Publish.Next.{IsSound, Changes-elim, apply_Next}

pub apply_Sound : (op : Op) (db : Db) → IsSound db → IsSound (apply op db)
apply_Sound op db s =
    let (c, a) = apply_Next op db s in
    (
      Changes-elim IsKeyed (λ _ _. Change-IsKeyed) c s.0,
      a,
      Changes-elim IsOrdered (λ _ _. Change-IsOrdered) c s.2,
    )

-- Any sequence of calls keeps the tables sound: identities unique, every step attached to a job,
-- and no step out of the queue before the earlier blocking steps of its job have succeeded.
pub run-IsSound : (ops : List Op) (db : Db) → IsSound db → IsSound (run ops db)
unfolding run
run-IsSound [] db s = s
run-IsSound (op ∷ ops) db s = run-IsSound ops (apply op db) (apply_Sound op db s)
