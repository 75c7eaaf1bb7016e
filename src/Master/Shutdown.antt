-- ===== src/Master/Shutdown.antt =====
-- The graceful shutdown, once no task is distributed any more.
pub mod Expiry
use lustre_ost_performance_t.Base.{Bool, [], ap, false, ok, refl, some, true, ◌++◌, ◌∙◌, ◌∷◌, ◌≡◌}
use lustre_ost_performance_t.Text.{Text}
use lustre_ost_performance_t.Dict.{put, remove}
use lustre_ost_performance_t.Dict.Laws.{remove-put}
use lustre_ost_performance_t.Msg.{Message, message_type, exit_command, sender}
use lustre_ost_performance_t.Msg.Factory.{create}
use lustre_ost_performance_t.Master.{
  Master, Config, Round, respond, on_message, on_shutdown, stop_if_all_down,
}
use lustre_ost_performance_t.Master.Loop.{handle, handle_received, settle, iterate}
use lustre_ost_performance_t.Master.Replies.{on_shutdown-eq}

respond_off :
    (on : Bool) (cfg : Config) (r : Round) (controller : Text) (m : Message) (s : Master)
    → on ≡ false
    → respond on cfg r controller m s ≡ on_shutdown controller s
unfolding respond
respond_off true cfg r controller m s h = cc
respond_off false cfg r controller m s h = refl

on_message_shutdown :
    (cfg : Config) (r : Round) (s : Master) (recv_data : Text) (m : Message) (controller : Text)
    → s.task_distribution ≡ false
    → create recv_data ≡ ok m
    → sender m ≡ ok controller
    → on_message cfg r recv_data s ≡ (
      ok tt,
      stop_if_all_down (record s {
        sent = s.sent ++ message_type exit_command ∷ [];
        heartbeats = remove s.heartbeats controller;
      }),
    )
unfolding on_message
on_message_shutdown cfg r s recv_data m controller off read by =
    let heard = record s { heartbeats = put s.heartbeats controller r.heard } in
    rw (read, by, on_message)
      (respond_off s.task_distribution cfg r controller m heard off
        ∙ on_shutdown-eq controller heard
        ∙ rw (remove-put s.heartbeats controller r.heard))

-- Without distribution any message that names its controller is answered by the exit command, the
-- controller is forgotten, and the loop ends exactly if no other controller is known.
pub iterate_shutdown :
    (cfg : Config) (r : Round) (s : Master) (recv_data : Text) (m : Message) (controller : Text)
    → s.task_distribution ≡ false
    → r.received ≡ ok (some recv_data)
    → create recv_data ≡ ok m
    → sender m ≡ ok controller
    → iterate cfg r s
      ≡ stop_if_all_down (record s {
        sent = s.sent ++ message_type exit_command ∷ [];
        heartbeats = remove s.heartbeats controller;
      })
unfolding iterate handle handle_received settle
iterate_shutdown cfg r s recv_data m controller off got read by =
    ap (λ received. settle (handle_received cfg r received s)) got
    ∙ ap settle (on_message_shutdown cfg r s recv_data m controller off read by)
