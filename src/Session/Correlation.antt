-- ===== src/Session/Correlation.antt =====
-- Which request a response answers (addCompletion and handleResponse of poller/session.go), and what
-- makes a session authenticated.
use rackspace_monitoring_pol.Base.{
  ℕ, ◌≡◌, ◌↔◌, refl, sym, ◌∙◌, Bool, true, false, ◌&&◌, Option, none, some, List, ◌∷◌, arith, ◌==◌,
  ==_iff, str_eq, if◌then◌else◌,
}
use rackspace_monitoring_pol.Base.Dict.{nat_eq, lookup, delete, lookup-insert}
use rackspace_monitoring_pol.Base.Outcome.{ok, panic, Returns}
use rackspace_monitoring_pol.Protocol.Frame.{FrameMsg}
use rackspace_monitoring_pol.Protocol.Methods.{method_handshake_hello}
use rackspace_monitoring_pol.Session.State.{Session, CompletionFrame}
use rackspace_monitoring_pol.Session.Exchange.{send_step, handle_response}

abbrev pub accepts : Option CompletionFrame → FrameMsg → Bool
accepts none f = false
accepts (some req) f =
    str_eq req.method method_handshake_hello && elim f.error [ none ↦ true | some e ↦ false ]

-- The frame is an answer, with no error, to a handshake that the session has sent.
abbrev pub accepts_hello : FrameMsg → Session → Bool
accepts_hello f s = accepts (lookup f.id s.completions) f

-- A response makes the session authenticated exactly when it accepts a handshake that is waiting
-- for its answer.
pub handle_response_authenticates :
    (f : FrameMsg) (s : Session)
    → s.authenticated ≡ false
    → Returns (handle_response f s) (λ r. r.0.authenticated ≡ accepts_hello f s)
unfolding handle_response
handle_response_authenticates f s h = ground arith

-- A response crashes the poller exactly when it accepts a handshake of a session that is
-- authenticated already: the channel is closed twice.
pub handle_response_crash :
    (f : FrameMsg) (s : Session)
    → (handle_response f s ≡ panic) ↔ ((s.authenticated ≡ true) × (accepts_hello f s ≡ true))
unfolding handle_response
handle_response_crash f s = (λ h. ground arith, λ h. ground arith)

-- What waits for an answer after a frame has been written, or has failed to be.
lookup-send_step :
    (written : Bool) (k : ℕ) (f : FrameMsg) (rest : List FrameMsg) (s : Session)
    → s.send_ch ≡ f ∷ rest
    → lookup k (send_step written s).completions ≡ (
        if f.id == k
        then some (record { id = f.id; method = f.method })
        else lookup k s.completions)
unfolding send_step
lookup-send_step true k f rest s h =
    rw (h, send_step) (lookup-insert f.id k (record { id = f.id; method = f.method }) s.completions)
lookup-send_step false k f rest s h =
    rw (h, send_step) (lookup-insert f.id k (record { id = f.id; method = f.method }) s.completions)

unnamed_response :
    (f : FrameMsg) (s : Session) (req : CompletionFrame)
    → lookup f.id s.completions ≡ some req
    → req.method ≡ ""
    → handle_response f s ≡ ok (record s { completions = delete f.id s.completions }, none)
unfolding handle_response
unnamed_response f s req h m = rw (h, handle_response) (rw m refl)

send_step_keeps :
    (written : Bool) (s : Session)
    → ((send_step written s).authenticated ≡ s.authenticated)
      × ((send_step written s).heartbeats_started ≡ s.heartbeats_started)
      × ((send_step written s).auth_timer ≡ s.auth_timer)
      × ((send_step written s).heartbeat_responses ≡ s.heartbeat_responses)
unfolding send_step
send_step_keeps written s = ground arith

-- A response of the poller that carries the id of a request of the poller's own takes that request's
-- place: the server's answer to the request is then dropped, whatever it was. A handshake that this
-- happens to never authenticates the session.
pub response_shadows_request :
    (written : Bool) (r f : FrameMsg) (rest : List FrameMsg) (s : Session)
    → s.send_ch ≡ r ∷ rest
    → r.method ≡ ""
    → f.id ≡ r.id
    → Returns (handle_response f (send_step written s)) (λ o.
      (o.0.authenticated ≡ s.authenticated)
      × (o.0.heartbeats_started ≡ s.heartbeats_started)
      × (o.0.auth_timer ≡ s.auth_timer)
      × (o.0.heartbeat_responses ≡ s.heartbeat_responses)
      × (o.1 ≡ none))
response_shadows_request written r f rest s h m e =
    let here : lookup f.id (send_step written s).completions
        ≡ some (record { id = r.id; method = r.method }) =
      lookup-send_step written f.id r rest s h ∙ rw ((==_iff r.id f.id).1 (sym e)) refl in
    rw (unnamed_response f (send_step written s) (record { id = r.id; method = r.method }) here m)
      (let k = send_step_keeps written s in (k.0, k.1, k.2, k.3, refl))
