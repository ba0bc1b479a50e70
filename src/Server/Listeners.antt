-- ===== src/Server/Listeners.antt =====
-- The listeners of the accept thread (actix-server/src/accept.rs): when they are registered with the
-- poll, and the timeouts after an error. Times are in milliseconds. Whether the registry takes a
-- listener is a parameter.
pub mod Timeouts
pub mod Pauses
use actix_net.Prelude.{
  ℕ, ◌+◌, ◌-◌, Bool, true, false, ◌||◌, ◌&&◌, not, List, [], ◌∷◌, Option, none, some, ltb,
  if◌then◌else◌,
}
use actix_net.Server.Accept.{Accept}

abbrev pub accept_error_backoff : ℕ
accept_error_backoff = 500

abbrev pub accept_error_poll_timeout : ℕ
accept_error_poll_timeout = accept_error_backoff + 10

-- `registered` tells whether the poll reports the listener.
pub record ServerSocketInfo : Type 0 where
  pub token : ℕ
  pub timeout : Option ℕ
  pub registered : Bool

-- `Accept::set_timeout`, on the accept thread's timeout.
unfoldable pub set_timeout : Option ℕ → ℕ → Option ℕ
set_timeout none duration = some duration
set_timeout (some timeout) duration = if ltb duration timeout then some duration else some timeout

module _ (takes : ServerSocketInfo → Bool) where
  unfoldable pub register_logged : ServerSocketInfo → ServerSocketInfo
  register_logged info = record info { registered = info.registered || takes info }

  -- The body of the loop of `process_timeout`.
  unfoldable pub retry : Bool → ℕ → Option ℕ → ServerSocketInfo → Option ℕ × ServerSocketInfo
  retry paused now t info = elim (info.timeout) [
    | none ↦ (t, info)
    | some inst ↦
        if ltb now inst
        then (set_timeout t (inst - now), info)
        else if paused
        then (t, record info { timeout = none })
        else (t, register_logged (record info { timeout = none }))
  ]

  unfoldable pub retry_all :
      Bool → ℕ → Option ℕ → List ServerSocketInfo → Option ℕ × List ServerSocketInfo
  retry_all paused now t [] = (t, [])
  retry_all paused now t (info ∷ infos) =
      let (t', info') = retry paused now t info in
      let (t'', infos') = retry_all paused now t' infos in (t'', info' ∷ infos')

  unfoldable pub process_timeout :
      ℕ → Accept → List ServerSocketInfo → Accept × List ServerSocketInfo
  process_timeout now a sockets = elim (a.timeout) [
    | none ↦ (a, sockets)
    | some d ↦
        let (t, sockets') = retry_all a.paused now none sockets in
        (record a { timeout = t }, sockets')
  ]

module _ (releases : ServerSocketInfo → Bool) where
  unfoldable pub deregister_logged : ServerSocketInfo → ServerSocketInfo
  deregister_logged info = record info { registered = info.registered && not (releases info) }

  -- Every timeout is taken, and a listener that had one is deregistered already.
  unfoldable pub deregister_one : ServerSocketInfo → ServerSocketInfo
  deregister_one info = elim (info.timeout) [
    | none ↦ deregister_logged info
    | some inst ↦ record info { timeout = none }
  ]

  unfoldable pub deregister_all : List ServerSocketInfo → List ServerSocketInfo
  deregister_all [] = []
  deregister_all (info ∷ infos) = deregister_one info ∷ deregister_all infos

  -- The arm of an error that is not the connection's: the listener rests.
  unfoldable pub on_accept_error : ℕ → Accept → ServerSocketInfo → Accept × ServerSocketInfo
  on_accept_error now a info = (
    record a { timeout = set_timeout a.timeout accept_error_poll_timeout },
    record (deregister_logged info) { timeout = some (now + accept_error_backoff) },
  )

  -- The arm `WakerInterest::Pause` of `handle_waker`.
  unfoldable pub on_pause : Accept → List ServerSocketInfo → Accept × List ServerSocketInfo
  on_pause a sockets =
      if a.paused then (a, sockets) else (record a { paused = true }, deregister_all sockets)
