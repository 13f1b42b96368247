-- ===== src/System.antt =====
-- The whole backend as one machine: every handler of backend/src/api/server.js that writes the modelled
-- tables, and the timers of backend/src/index.js. An event carries the request and what the outside
-- world answers; events run one after another.
pub mod Rows
pub mod Frames
pub mod Safe
use nodeva.Prelude.{ℕ, Bool, Option, none, some, List, [], ◌∷◌}
use nodeva.Reservations.Machine.{Status}
use nodeva.Reservations.Reconciler.{expire_stale_holds, NodeView, reconcile_expired_mismatches}
use nodeva.Payments.Refunds.{process_refund_retries}
use nodeva.Jobs.Verification.{Fingerprint}
use nodeva.Store.{Store, Env}
use nodeva.Api.Capture.{NodeReply}
use nodeva.Api.Booking.{Desk, Booking, ReserveAnswer, book}
use nodeva.Api.Confirm.{Secrets, confirm, confirm_verify, webhook}
use nodeva.Api.JobSubmit.{Submission, SubmitRequest, submit_job, tiebreak}
use nodeva.Api.JobResult.{JobResult, on_job_result}
use nodeva.Api.Complete.{complete}
use nodeva.Api.Nodes.{Listing, enroll, retire}

pub data Event : Type 0 where
  books : Desk → Booking → ReserveAnswer → Event
  confirms : Env → NodeReply → Option ℕ → ℕ → ℕ → ℕ → Event
  verifies : Env → Secrets → NodeReply → ℕ → ℕ → ℕ → ℕ → Option (List ℕ) → Event
  hears : Env → Secrets → NodeReply → List ℕ → Option (List ℕ) → Option (ℕ × ℕ) → Event
  submits : List (List ℕ) → (Submission → NodeReply) → SubmitRequest → Event
  tiebreaks : (Submission → NodeReply) → ℕ → ℕ → ℕ → ℕ → Event
  reports : (Fingerprint → ℕ) → Env → JobResult → Event
  completes : Bool → Env → ℕ → ℕ → Status → ℕ → Event
  enrolls : ℕ → ℕ → Listing → Event
  retires : ℕ → ℕ → Event
  expires : ℕ → Event
  reconciles : NodeView → Event
  retries : Env → Event

unfoldable pub handle : Event → Store → Store
handle (books desk b answer) db = (book desk b answer db).1
handle (confirms env reply order payment user id) db =
    (confirm env reply order payment user id db).1
handle (verifies env keys reply user id order ref signature) db =
    (confirm_verify env keys reply user id order ref signature db).1
handle (hears env keys reply raw signature event) db =
    (webhook env keys reply raw signature event db).1
handle (submits repos ack req) db = (submit_job repos ack req db).1
handle (tiebreaks ack user group tiebreaker job) db = (tiebreak ack user group tiebreaker job db).1
handle (reports digest env msg) db = on_job_result digest env msg db
handle (completes is_allowed env user id outcome seconds) db =
    (complete is_allowed env user id outcome seconds db).1
handle (enrolls id user l) db = (enroll id user l db).1
handle (retires id user) db = (retire id user db).1
handle (expires now) db = expire_stale_holds now none db
handle (reconciles view) db = (reconcile_expired_mismatches view db).0
handle (retries env) db = process_refund_retries env db

-- A day of the backend.
unfoldable pub run : List Event → Store → Store
unfolding handle
run [] db = db
run (e ∷ es) db = run es (handle e db)
