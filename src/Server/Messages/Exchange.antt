-- ===== src/Server/Messages/Exchange.antt =====
-- eLibrary/src/server/eLibrary_server_handler.c: what `notifyExchange` delivers.
use morning_projects.Common.{
  true, false, none, some, List, [], ◌∷◌, ◌++◌, ◌≡◌, refl, if◌then◌else◌, ◌&&◌,
}
use morning_projects.Server.{ok, fail}
use morning_projects.Server.Bytes.{Text}
use morning_projects.Server.Messages.{
  SystemEvent, is_undef, Round, notified, system_msg, notify_exchange,
}

-- what other threads, and no one else, make of a pending event through the rounds
abbrev pub left_alone : List Round → SystemEvent → SystemEvent
left_alone [] pending = pending
left_alone (r ∷ rounds) pending = left_alone rounds (r.meanwhile pending)

-- In each round another event is pending, and the lock is taken and given back.
abbrev pub IsBusy : List Round → SystemEvent → Type 0
IsBusy [] pending = Unit
IsBusy (r ∷ rounds) pending =
    (is_undef (r.meanwhile pending) ≡ false)
    × (r.locks ≡ true)
    × (r.unlocks ≡ true)
    × IsBusy rounds (r.meanwhile pending)

module _ (host name msg : Text) where
  -- `notifyExchange` waits through any number of rounds in which an event is pending and the lock
  -- is taken and given back, and overwrites no event in them: with nothing but such rounds it is still
  -- trying, and the next round meets what other threads alone have made of the pending event. If that is
  -- undefined then and the lock is taken, its message becomes the event, with status OK and the lock given
  -- back if the signal and the unlock succeed, and with status FAIL and the lock still held if one of them
  -- fails. If it is not, and the unlock fails, or if the lock fails, the status is FAIL and the event
  -- stays.
  pub notify_exchange_lem :
      (busy : List Round) (last : Round) (rounds : List Round) (pending : SystemEvent)
      → IsBusy busy pending
      → let met = last.meanwhile (left_alone busy pending) in
        let call = notify_exchange (busy ++ (last ∷ rounds)) pending host name msg in
        (notify_exchange busy pending host name msg ≡ none)
        × (is_undef met ≡ true
            → last.locks ≡ true
            → call
              ≡ some (
                  if last.signals && last.unlocks
                  then notified ok (system_msg host name msg) false
                  else notified fail (system_msg host name msg) true))
        × (is_undef met ≡ false
            → last.locks ≡ true
            → last.unlocks ≡ false
            → call ≡ some (notified fail met true))
        × (last.locks ≡ false → call ≡ some (notified fail met false))
  unfolding notify_exchange
  notify_exchange_lem [] last rounds pending h = (
    refl,
    (λ free locks. rw (locks, free) refl),
    (λ taken locks unlocks. rw (locks, taken, unlocks) refl),
    (λ locks. rw locks refl),
  )
  notify_exchange_lem (r ∷ busy) last rounds pending (met, locks, unlocks, h) =
      rw (locks, met, unlocks) (notify_exchange_lem busy last rounds (r.meanwhile pending) h)
