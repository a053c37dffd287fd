-- ===== src/Staging/Served.antt =====
-- Requests to internal/uploads/service.go over the tables of uploads.
use imgsrv.Prelude.{◌≡◌, refl, ◌⊎◌, inl, inr, Result, ok}
use imgsrv.Uploads.Calls.{Op, apply}
use imgsrv.Cas.World.{World}
use imgsrv.Staging.Objects.{Service}
use imgsrv.Staging.Service.{begin_upload, put_upload_part}
use imgsrv.Staging.Completion.{complete_upload, abort_upload, get_upload}
use imgsrv.Staging.Once.{Once, map-Once}
use imgsrv.Staging.Calls.{Request, begins, puts, completes, aborts, reads, forget, serve}
use imgsrv.Staging.Requests.{
  begin_upload-Leaves, put_upload_part-Leaves, complete_upload-Leaves, abort_upload-Leaves,
  get_upload-Leaves,
}

module _ {O : Type 0} where
  -- The value that a call returns is left out.
  forgotten :
      (sv : Service O) (w : World O) {A : Type 0} (r : Result A × World O)
      → Once sv.uuid_text w.db r
      → ((forget r).1.db ≡ w.db)
        ⊎ (((forget r).0 ≡ ok tt) × (op : Op) × ((forget r).1.db ≡ apply sv.uuid_text op w.db))
  forgotten sv w r h = elim (map-Once sv.uuid_text w.db r (λ _. tt) h) [
    | inl e ↦ inl e
    | inr (_, good, op, e) ↦ inr (good, op, e)
  ]

  -- A request to the upload service either leaves the tables as they were, or it succeeds and the tables are
  -- what one call of the upload store makes of them; so a request that fails has written nothing to them.
  pub serve-writes :
      (sv : Service O) (q : Request) (w : World O)
      → ((serve sv q w).1.db ≡ w.db)
        ⊎ (((serve sv q w).0 ≡ ok tt)
            × (op : Op) × ((serve sv q w).1.db ≡ apply sv.uuid_text op w.db))
  unfolding serve
  serve-writes sv (begins p) w =
      forgotten sv w (begin_upload sv p w) (begin_upload-Leaves sv w.db p w refl)
  serve-writes sv (puts p) w =
      forgotten sv w (put_upload_part sv p w) (put_upload_part-Leaves sv w.db p w refl)
  serve-writes sv (completes id parts) w =
      forgotten sv w (complete_upload sv id parts w)
        (complete_upload-Leaves sv w.db id parts w refl)
  serve-writes sv (aborts id) w =
      forgotten sv w (abort_upload sv id w) (abort_upload-Leaves sv w.db id w refl)
  serve-writes sv (reads id) w =
      forgotten sv w (get_upload sv id w) (get_upload-Leaves sv w.db id w refl)
