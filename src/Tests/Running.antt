-- ===== src/Tests/Running.antt =====
-- The page walk, the settings, the table, the broker's connection and the workers' loops at
-- concrete inputs.
use email_triage_system.Common.{
  ◌+◌, ◌<◌, String, ◌≡◌, ◌≢◌, refl, inl, inr, ◌⊎◌, true, false, ◌||◌, Option, some, none, List, [],
  ◌∷◌, ◌++◌, map, All, length, ◌==◌, eqb, arith, if◌then◌else◌,
}
use email_triage_system.Common.Int.{ℤ, pos}
use email_triage_system.World.{Error, database, other, Env, World, ok, err}
use email_triage_system.World.Runs.{FaultFree}
use email_triage_system.Storage.{has_run, find_run}
use email_triage_system.Storage.View
use email_triage_system.Storage.View.{Statement, perform_all, specify_all, view}
use email_triage_system.Storage.View.Refinement.{perform_all-Refines}
use email_triage_system.Reader.Source.{
  Source, source_mock, source_gmail, list_messages, to_messages,
}
use email_triage_system.Reader.Source.Pages.Complete.{pages_items, list_messages_complete}
use email_triage_system.Auth.{normalized}
use email_triage_system.Config.{load, auth_config, email_reader, new_label_worker}
use email_triage_system.Config.Defaults.{IsUsable, load-IsUsable}
use email_triage_system.Config.Kept.{reader_of, load-is_kept}
use email_triage_system.Broker.Connection.{
  Amqp, Server, new_rabbitmq, close, consume_classified_emails, request, declare_exchange,
  declare_raw, bind_raw, declare_classified, bind_classified,
}
use email_triage_system.Broker.Connection.Handles.{
  Ends, IsOpened, first_failure, new_rabbitmq-Ends, close-new_rabbitmq,
}
use email_triage_system.Scans.{Job, scheduled_mode, start_scan}
use email_triage_system.Scans.Schedule
use email_triage_system.Scans.Schedule.{Event, ticked, meanwhile, schedule, start_scheduled_scans}
use email_triage_system.Scans.Schedule.Jobs.{
  IsScheduled, MaySchedule, start_scheduled_scans-FaultFree, start_scheduled_scans-IsScheduled,
}
use email_triage_system.World.{Result, call, now, ◌>>=◌}
use email_triage_system.Storage.{create_scan_run}
use email_triage_system.Reader.{Message}
use email_triage_system.Scans.{enqueue_scan}
use email_triage_system.Scans.Complete.Listing.{messages_of}
use email_triage_system.Scans.Complete.Whole.{IsWhole, enqueue_scan-IsWhole}
use email_triage_system.Pipeline.Classified.{scan_classified}
use email_triage_system.Storage.{find_email}
use email_triage_system.Tests.Fixtures.{mock_source, dry_job, in_order-RoundTrips}
use email_triage_system.Consumer.Pool.{LabelWorkerRun, Pool, Reach, Step, started, returned}
use email_triage_system.Consumer.Pool.Safety.{HasReason, report-has_room, Run-returned}
use email_triage_system.Consumer.Pool.Silent.{Run-silent}
use email_triage_system.Consumer.Pool.Returning.{Leads, IsBack, Run-can_return}
use email_triage_system.Consumer.Run
use email_triage_system.Consumer.Run.{delivery, stopped, run}
use email_triage_system.Consumer.Run.Drained.{IsStored, KeepsRows, run_drains}
use email_triage_system.Tests.Fixtures.{plain, in_order, calm, waiting_world, new_row}

calm-FaultFree : FaultFree calm
calm-FaultFree = record { fine_call = λ n. refl }

abbrev two_pages : Env
two_pages = record calm {
  page = λ size query token.
      if token == ""
      then record { message_ids = some "m1" ∷ none ∷ some "" ∷ []; next_page_token = "p2" }
      else record { message_ids = some "m2" ∷ []; next_page_token = "" };
}

two_pages-FaultFree : FaultFree two_pages
two_pages-FaultFree = record { fine_call = λ n. refl }

abbrev inbox : Source
inbox = record {
  source = "gmail";
  mock = true;
  gmail = true;
  max_results = pos 2;
  query = "in:inbox";
}

list_messages_complete_example :
    (v : World) × (list_messages plain two_pages 5 inbox waiting_world
      ≡ (ok (to_messages (pages_items plain two_pages inbox 2 "")), v))
list_messages_complete_example =
    list_messages_complete plain two_pages inbox 2 5 waiting_world two_pages-FaultFree (λ e. cc)
      (inr (inl refl)) (omega arith)

abbrev negative_size : String → String
negative_size key = if key == "GMAIL_READ_MAX_RESULTS" then "-5" else ""

abbrev no_duration : String → Option ℤ
no_duration s = none

load-IsUsable_example : IsUsable (load negative_size no_duration)
load-IsUsable_example = load-IsUsable negative_size no_duration

load-is_kept_example :
    let cfg = load negative_size no_duration in
    (normalized (auth_config cfg) ≡ auth_config cfg)
    × (new_label_worker true true true cfg.label_worker_concurrency
        ≡ ok cfg.label_worker_concurrency)
    × (email_reader cfg ≡ (
        if cfg.email_source == source_mock || cfg.email_source == source_gmail
        then ok (reader_of cfg)
        else err (other "unsupported email source")))
load-is_kept_example = load-is_kept negative_size no_duration

abbrev statements : List Statement
statements =
    View.insert new_row
    ∷ View.upsert new_row
    ∷ View.mark_applied 7 "u1" "m1" "Invoices"
    ∷ View.get "u1" "m2"
    ∷ []

perform_all-Refines_example :
    ((perform_all statements waiting_world.state).0
      ≡ (specify_all waiting_world.state.db.scan_runs statements (view waiting_world.state)).0)
    × (view (perform_all statements waiting_world.state).1
        ≡ (specify_all waiting_world.state.db.scan_runs statements (view waiting_world.state)).1)
perform_all-Refines_example = perform_all-Refines statements waiting_world.state

abbrev no_handles : Server
no_handles = record {
  requests = 0;
  connections = 0;
  channels = 0;
  exchanges = [];
  queues = [];
  bindings = [];
  prefetch = 0;
  consumers = [];
}

-- The request for the second queue fails.
abbrev no_second_queue : Amqp
no_second_queue = record { failure = λ n. if eqb n 5 then some database else none }

new_rabbitmq-Ends_example : Ends 0 0 (IsOpened no_handles) (new_rabbitmq no_second_queue no_handles)
new_rabbitmq-Ends_example = new_rabbitmq-Ends no_second_queue no_handles

-- Only the `Close` of the channel fails.
abbrev no_close : Amqp
no_close = record { failure = λ n. if eqb n 7 then some database else none }

abbrev opened : Server
opened = (new_rabbitmq no_close no_handles).1

close-new_rabbitmq_example :
    ((close no_close opened).1.connections ≡ 0)
    × ((close no_close opened).1.channels ≡ 0)
    × ((close no_close opened).0
        ≡ first_failure (no_close.failure opened.requests) (no_close.failure (opened.requests + 1)))
unfolding new_rabbitmq request declare_exchange declare_raw bind_raw declare_classified
    bind_classified
close-new_rabbitmq_example = close-new_rabbitmq no_close no_handles opened refl

one_busy : Reach 1 (record (started 1) { waiting = 0; busy = 1 })
one_busy = Reach.later Reach.start (Step.take refl)

report-has_room_example : length (started 1).errors < 1
report-has_room_example =
    report-has_room {c = 1} {p = record (started 1) { waiting = 0; busy = 1 }} one_busy
      (omega arith)

abbrev stopped_pool : Pool
stopped_pool = record (started 1) { stopped = true }

abbrev back : Pool
back = record stopped_pool {
  waiting = 0;
  exited = 1;
  cancelled = true;
  done = true;
  main = returned none;
}

back_reached : Reach 1 back
back_reached =
    Reach.later
      (Reach.later
        (Reach.later (Reach.later (Reach.later Reach.start Step.stop) (Step.on_stop refl refl))
          (Step.leave refl refl))
        (Step.all_done refl))
      (Step.drained none refl refl)

back_run : LabelWorkerRun no_close no_handles 1 none
unfolding consume_classified_emails request
back_run = LabelWorkerRun.subscribed refl back_reached refl

Run-returned_example :
    ((e : Error) × ((consume_classified_emails no_close no_handles).0 ≡ err e)
      × (◌≡◌ {A = Option Error} none (some e)))
    ⊎ (((consume_classified_emails no_close no_handles).0 ≡ ok tt)
        × ((p : Pool) × Reach 1 p
            × (p.main ≡ returned none)
            × (p.exited ≡ 1)
            × (p.waiting + p.busy + p.reported ≡ 0)
            × HasReason p none))
Run-returned_example = Run-returned (omega arith) back_run

Run-silent_example :
    (p : Pool) × Reach 2 p
    × (p.main ≡ returned none)
    × (p.failures ≡ database ∷ [])
    × (p.errors ≡ database ∷ [])
    × (p.stopped ≡ false)
    × (p.closed ≡ false)
Run-silent_example = Run-silent 1 database

Run-can_return_example : (q : Pool) × Leads 1 stopped_pool q × IsBack q
Run-can_return_example = Run-can_return (Reach.later Reach.start Step.stop) refl

run_drains_example :
    (v : World) × (run plain in_order calm
        (ok tt)
        (map delivery waiting_world.state.raw_queue ++ stopped ∷ [])
        waiting_world
      ≡ (Run.returned (ok tt), v))
    × (v.state.raw_queue ≡ [])
    × All
        (λ b. IsStored v.state.db.email_messages (in_order.unmarshal_raw b))
        waiting_world.state.raw_queue
    × KeepsRows waiting_world.state v.state
unfolding has_run find_run
run_drains_example = run_drains plain in_order calm waiting_world calm-FaultFree (refl, tt)

abbrev nightly : List Event
nightly = ticked ∷ meanwhile (λ w. waiting_world) ∷ ticked ∷ Schedule.stopped ∷ ticked ∷ []

start_scheduled_scans-FaultFree_example :
    (jobs : List Job) × (last : World) × (start_scheduled_scans calm "u1" "" true
        (pos 5)
        ""
        nightly
        waiting_world
      ≡ (ok tt, jobs, last))
    × (length jobs ≡ 2)
unfolding scheduled_mode
start_scheduled_scans-FaultFree_example =
    start_scheduled_scans-FaultFree calm "u1" "" true (pos 5) "" "dry_run" nightly waiting_world
      calm-FaultFree refl

abbrev scheduled_job : Job
scheduled_job = record {
  run_id = 2;
  user_id = "u1";
  mode = "dry_run";
  query = "";
  mark_read = true;
}

start_scheduled_scans-IsScheduled_example :
    (◌≡◌ {A = Result (Unit {0})} (ok tt) (ok tt))
    × ((mode : String) × MaySchedule (pos 5) "u1" "" mode
        × All (IsScheduled "u1" mode "" true) (scheduled_job ∷ []))
unfolding start_scheduled_scans schedule scheduled_mode start_scan create_scan_run call now ◌>>=◌
start_scheduled_scans-IsScheduled_example =
    start_scheduled_scans-IsScheduled calm "u1" "" true (pos 5) "" (ticked ∷ []) waiting_world
      (ok tt) scheduled_job [] _ refl

enqueue_scan-IsWhole_example :
    IsWhole in_order dry_job
      (messages_of plain calm mock_source 0)
      waiting_world.state
      (enqueue_scan plain in_order calm mock_source 0 dry_job waiting_world).state
unfolding has_run find_run
enqueue_scan-IsWhole_example =
    enqueue_scan-IsWhole plain in_order calm mock_source mock_source 0 0 dry_job waiting_world
      calm-FaultFree refl (inl refl) (omega arith) refl

abbrev after_scan : World
after_scan = enqueue_scan plain in_order calm mock_source 0 dry_job waiting_world

scan_classified_example :
    (v : World) × (run plain in_order calm
        (ok tt)
        (map delivery after_scan.state.raw_queue ++ stopped ∷ [])
        after_scan
      ≡ (Run.returned (ok tt), v))
    × (v.state.raw_queue ≡ [])
    × All
        (λ (m : Message). find_email "u1" m.id v.state.db.email_messages ≢ none)
        (messages_of plain calm mock_source 0)
unfolding has_run find_run
scan_classified_example =
    scan_classified plain in_order calm mock_source mock_source 0 0 dry_job waiting_world
      calm-FaultFree in_order-RoundTrips refl (inl refl) (omega arith) refl (refl, tt)
