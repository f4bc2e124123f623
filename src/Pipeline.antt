-- ===== src/Pipeline.antt =====
-- The running system: scans, classifier workers and label workers take their turns in any order, and
-- a delivery is any message that the broker still holds. A turn is one whole handler; the faults
-- inside it are those of `Env`.
pub mod Permission
pub mod Tables
pub mod Soundness
pub mod Classified
use mathlib.Core.List.{Memᴰ}
use email_triage_system.Common.{ℕ, String, Bool}
use email_triage_system.Text.{GoLib}
use email_triage_system.Reader.Source.{Source}
use email_triage_system.Events.{Body, Codec}
use email_triage_system.World.{Env, World}
use email_triage_system.Consumer.{handle_raw_delivery, handle_classified_delivery}
use email_triage_system.Scans.{Job, start_scan, enqueue_scan}

module _ (lib : GoLib) (codec : Codec) (env : Env) (reader : Source) (ok_job : Job → Type 0) where
  pub data Step : World → World → Type 0 where
    start :
        (user_id mode query : String) (mark_read : Bool) (w : World)
        → Step w (start_scan env user_id mode query mark_read w).1
    enqueue :
        (fuel : ℕ) (job : Job) (w : World)
        → ok_job job
        → Step w (enqueue_scan lib codec env reader fuel job w)
    classify :
        (body : Body) (w : World)
        → Memᴰ body w.state.raw_queue
        → Step w (handle_raw_delivery lib codec env body w).1
    label :
        (body : Body) (w : World)
        → Memᴰ body w.state.classified_queue
        → Step w (handle_classified_delivery lib codec env body w).1

  pub data Reach (w : World) : World → Type 0 where
    here : Reach w w
    next : {u v : World} → Reach w u → Step u v → Reach w v

  -- What every turn keeps holds wherever the system gets.
  pub Reach_induction :
      (P : World → Type 0)
      → ((u v : World) → Step u v → P u → P v)
      → (w v : World) → Reach w v
      → P w
      → P v
  Reach_induction P keep w v here h = h
  Reach_induction P keep w v (next {u} r s) h = keep u v s (Reach_induction P keep w u r h)
