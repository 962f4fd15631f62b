-- ===== src/Server/Gateway/Chats/Tests.antt =====
-- Chats at a gate of one slot and a queue of one.
use kvmux.Prelude.{◌+◌, ◌≤◌, ◌≡◌, refl, [], length}
use kvmux.Admission.Gate.{enter, arrive}
use kvmux.Server.Gateway.Chats.{
  Chats, none_yet, refuse, ask, refuses, asks, Run, stays, moves, Run-Counted,
}

abbrev at_first : Chats
at_first = none_yet 1 1

-- The first holds the slot, the second waits, the third finds the queue full, the fourth is no request.
abbrev four : Chats
four = refuse (ask (ask (ask at_first)))

four_come : Run at_first four
four_come = moves (moves (moves (moves stays (asks refl)) (asks refl)) (asks refl)) (refuses refl)

Run-Counted_example :
    (four.in_flight ≡ four.refused + length four.gate.suspended + four.gate.holders)
    × (four.gate.holders ≤ 1)
    × (four.in_flight ≡ 0 → (four.gate.gate.in_flight ≡ 0) × (four.gate.gate.waiters ≡ []))
Run-Counted_example = Run-Counted 1 1 four four_come

four_counts : (four.in_flight ≡ 4) × (four.refused ≡ 2) × (four.gate.holders ≡ 1)
unfolding arrive enter
four_counts = (refl, refl, refl)
