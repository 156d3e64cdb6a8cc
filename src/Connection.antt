-- ===== src/Connection.antt =====
-- poller/connection.go: EleConnection. `S` is the session's state, of which the connection uses what
-- the section names; what a dialling gives is a parameter.
use rackspace_monitoring_pol.Base.{
  ℕ, suc, String, Bool, true, false, Option, none, some, ◌≡◌, refl, if◌then◌else◌,
}
use rackspace_monitoring_pol.Base.Outcome.{Outcome, ok, panic}

-- The value of the field `conn` that is not nil: a connection, or the nil pointer that a failed
-- tls.DialWithDialer gives, which an interface holds without being nil.
pub data Conn : Type 0 where
  opened nil_tls_conn : Conn

pub record EleConnection (S : Type 0) : Type 0 where
  pub session : Option S
  pub conn : Option Conn
  pub address : String
  pub guid : String
  -- whether the channel `authenticated` is closed
  pub authenticated : Bool
  -- the counters of the address
  pub attempts : ℕ
  pub connected : ℕ
  pub disconnected : ℕ

pub data ConnectError : Type 0 where
  undefined_context : ConnectError
  not_dialled : String → ConnectError

-- Whether there is a proxy URL, and the error of dialling through it; whether there is a TLS
-- configuration; the error of dialling directly.
pub record Network : Type 0 where
  pub proxy : Option (Option String)
  pub tls : Bool
  pub dial_error : Option String

module _ {S : Type 0} where
  abbrev pub new_connection : String → String → EleConnection S
  new_connection address guid = record {
    session = none;
    conn = none;
    address = address;
    guid = guid;
    authenticated = false;
    attempts = 0;
    connected = 0;
    disconnected = 0;
  }

  unfoldable pub dial : Network → EleConnection S → EleConnection S × Option ConnectError
  dial net c = elim net.proxy [
    | some (some e) ↦ (c, some (not_dialled e))
    | some none ↦ (record c { conn = some opened }, none)
    | none ↦ elim net.dial_error [
      | none ↦ (record c { conn = some opened }, none)
      | some e ↦
          (record c { conn = if net.tls then some nil_tls_conn else none }, some (not_dialled e))
    ]
  ]

  -- The rest of Connect, unless the dialling failed.
  abbrev pub establish :
      S → EleConnection S × Option ConnectError → EleConnection S × Option ConnectError
  establish new_session (c, some e) = (c, some e)
  establish new_session (c, none) =
      (record c { session = some new_session; connected = suc c.connected }, none)

  -- A context that is not nil, and the session that NewSession gives.
  unfoldable pub connect :
      Bool → Network → S → EleConnection S → EleConnection S × Option ConnectError
  unfolding dial
  connect false net new_session c = (c, some undefined_context)
  connect true net new_session c =
      establish new_session (dial net (record c { attempts = suc c.attempts }))

  abbrev pub close_session : (S → S) → EleConnection S → Outcome (EleConnection S)
  close_session cancel c = elim c.session [
    | none ↦ panic
    | some s ↦ ok (record c { session = some (cancel s) })
  ]

  unfoldable pub close : (S → S) → EleConnection S → Outcome (EleConnection S)
  close cancel c = elim c.conn [
    | none ↦ close_session cancel c
    | some nil_tls_conn ↦ panic
    | some opened ↦
        close_session cancel (record c { conn = none; disconnected = suc c.disconnected })
  ]

  unfoldable pub set_authenticated : EleConnection S → Outcome (EleConnection S)
  set_authenticated c = if c.authenticated then panic else ok (record c { authenticated = true })

  -- GetClockOffset, GetLatency and HasLatencyMeasurements ask the session.
  abbrev pub ask_session : {A : Type 0} → (S → A) → EleConnection S → Outcome A
  ask_session get c = elim c.session [ none ↦ panic | some s ↦ ok (get s) ]

  -- What Close does after a Connect: it ends the connection and its session, once and for all, or it
  -- crashes.
  abbrev pub Closes : (S → S) → EleConnection S × Option ConnectError → Type 0
  Closes cancel (c, some e) = (close cancel c ≡ panic)
  Closes cancel (c, none) =
      (s : S) × (c.session ≡ some s)
      × (close cancel c
          ≡ ok (record c {
            session = some (cancel s);
            conn = none;
            disconnected = suc c.disconnected;
          }))
      × (c.connected ≡ 1)
      × (c.attempts ≡ 1)

  -- A new connection that Connect could connect has one attempt and one connection counted, a session
  -- that can be asked, and is ended by Close, which counts it as disconnected and closes the session.
  -- One that it could not connect cannot be closed: Close crashes the poller.
  pub connect-Closes :
      (cancel : S → S) (address guid : String) (has_context : Bool) (net : Network)
      (new_session : S)
      → Closes cancel (connect has_context net new_session (new_connection address guid))
  unfolding connect dial close
  connect-Closes cancel address guid false net s = refl
  connect-Closes cancel address guid true net s = by_proxy net.proxy net.dial_error net.tls
    where
      by_proxy :
          (p : Option (Option String)) (e : Option String) (tls : Bool)
          → Closes cancel (
              connect true
                (record { proxy = p; tls = tls; dial_error = e })
                s
                (new_connection address guid))
      by_proxy (some (some e)) d tls = refl
      by_proxy (some none) d tls = (s, refl, refl, refl, refl)
      by_proxy none none tls = (s, refl, refl, refl, refl)
      by_proxy none (some e) true = refl
      by_proxy none (some e) false = refl
