-- ===== src/Socket/Tests.antt =====
-- The persistent web socket at concrete events.
use interop.Base.{◌≡◌, refl, [], some, pos, negsuc, inr}
use interop.Socket.{
  Options, State, stay_silent, call_close, connecting, on_timer, create_persistent_web_socket,
  on_open, on_close, close, opens, loses, Reach, start, next, open_state, closed, remove,
}
use interop.Socket.Connections.{Inv}
use interop.Socket.Invariant.{Reach-Inv}
use interop.Socket.Listeners.{OpenAgain, close-again}
use interop.Socket.Retries.{
  Trying, GaveUp, after_failures, max_retries_lem, unlimited_retries, close-on_open,
}

abbrev two_retries : Options
two_retries = record { connect_timeout = 5000; retry_interval = 3000; max_retries = some (pos 2) }

abbrev negative_retries : Options
negative_retries = record {
  connect_timeout = 5000;
  retry_interval = 3000;
  max_retries = some (negsuc 0);
}

-- The first socket opens and is lost, and the timer dials the next.
abbrev lost : State
lost =
    on_close two_retries stay_silent 0
      (on_open stay_silent 0 (create_persistent_web_socket two_retries))

lost-Reach : Reach two_retries lost
unfolding create_persistent_web_socket on_open remove
lost-Reach = next (next start (opens stay_silent 0 [] [] refl)) (loses stay_silent 0 [] [] refl)

Reach-Inv_example : Inv two_retries lost
Reach-Inv_example = Reach-Inv two_retries lost lost-Reach

max_retries_example :
    let s = after_failures two_retries 2 in
    Trying 2 s
    × GaveUp (on_close two_retries stay_silent 2 s)
    × ((on_close two_retries stay_silent 2 s).sockets ≡ 3)
    × ((on_close two_retries stay_silent 2 s).effects ≡ s.effects)
max_retries_example = max_retries_lem two_retries 2 refl

unlimited_retries_example : Trying 5 (after_failures negative_retries 5)
unlimited_retries_example = unlimited_retries negative_retries 5 (inr (0, refl))

close-on_open_example :
    Reach two_retries (on_open stay_silent 0 (close (create_persistent_web_socket two_retries)))
    × ((close (create_persistent_web_socket two_retries)).ready_state ≡ closed)
    × ((on_open stay_silent 0 (close (create_persistent_web_socket two_retries))).ready_state
        ≡ open_state)
unfolding create_persistent_web_socket
close-on_open_example =
    close-on_open two_retries (create_persistent_web_socket two_retries) 0 start refl refl

abbrev once_open : State
once_open = on_open stay_silent 0 (create_persistent_web_socket two_retries)

once_open-Reach : Reach two_retries once_open
unfolding create_persistent_web_socket
once_open-Reach = next start (opens stay_silent 0 [] [] refl)

close-again_example :
    let t = on_close two_retries call_close 0 once_open in
    (t.ready_state ≡ connecting)
    × (t.timers ≡ 1)
    × OpenAgain two_retries 1 (on_open stay_silent 1 (on_timer two_retries t))
unfolding create_persistent_web_socket on_open remove
close-again_example = close-again two_retries once_open 0 once_open-Reach refl refl
