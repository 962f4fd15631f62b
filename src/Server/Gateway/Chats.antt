-- ===== src/Server/Gateway/Chats.antt =====
-- The chats of src/server/gateway.cpp with the gate: `handle` counts a chat in, `handle_chat` refuses it, or acquires a slot
-- of the gate for it and holds the ticket until it is over, and `handle` counts it out.
pub mod Tests
use kvmux.Prelude.{
  ℕ, suc, ◌+◌, ◌-◌, ◌≤◌, ◌<◌, ◌≡◌, refl, true, List, [], ◌∷◌, arith, length, length-append,
}
use kvmux.Admission.Gate.{
  erase_first, GlobalGate, AdmitStatus, admitted, queue_full, queue_timeout, Entry, returned, waits,
  enter, resume, release, World, start, arrive, wake, leave, contains, Step, arrives, wakes, leaves,
  Reach, here, next,
}
use kvmux.Admission.Gate.Invariant.{Reach-Inv, Inv-unused}

-- `in_flight_`, the gate with those who wait in `acquire` or hold a ticket, and how many chats are being
-- refused: their response is written, with no slot.
pub record Chats : Type 0 where
  pub in_flight : ℕ
  pub gate : World
  pub refused : ℕ

abbrev pub none_yet : ℕ → ℕ → Chats
none_yet ceiling depth = record { in_flight = 0; gate = start ceiling depth; refused = 0 }

-- A chat whose body or model is refused, which does not ask the gate.
abbrev pub refuse : Chats → Chats
refuse c = record c { in_flight = c.in_flight + 1; refused = c.refused + 1 }

abbrev pub refused_on_entry : Entry → ℕ
refused_on_entry (returned admitted) = 0
refused_on_entry (returned _) = 1
refused_on_entry (waits i) = 0

-- A chat that asks for a slot, up to its `co_await`.
abbrev pub ask : Chats → Chats
ask c = record {
  in_flight = c.in_flight + 1;
  gate = arrive c.gate;
  refused = c.refused + refused_on_entry (enter c.gate.gate).1;
}

abbrev pub refused_on_resume : AdmitStatus → ℕ
refused_on_resume admitted = 0
refused_on_resume _ = 1

-- A chat that waited goes on, with a slot or without.
abbrev pub go_on : Chats → ℕ → Chats
go_on c i = record c {
  gate = wake c.gate i;
  refused = c.refused + refused_on_resume (resume c.gate.gate i).1;
}

-- A chat that holds a slot is over, by a return or an exception: the ticket goes, then the count falls.
abbrev pub finish : Chats → Chats
finish c = record c { in_flight = c.in_flight - 1; gate = leave c.gate }

-- A refused chat is over.
abbrev pub finish_refused : Chats → Chats
finish_refused c = record c { in_flight = c.in_flight - 1; refused = c.refused - 1 }

pub data Move (c d : Chats) : Type 0 where
  refuses : d ≡ refuse c → Move c d
  asks : d ≡ ask c → Move c d
  goes_on : (i : ℕ) → contains i c.gate.suspended ≡ true → d ≡ go_on c i → Move c d
  finishes : 0 < c.gate.holders → d ≡ finish c → Move c d
  finishes_refused : 0 < c.refused → d ≡ finish_refused c → Move c d

pub data Run (c : Chats) : Chats → Type 0 where
  stays : Run c c
  moves : {d e : Chats} → Run c d → Move d e → Run c e

-- What the chats do to the gate is steps of the gate.
Move-Reach : {w : World} (c d : Chats) → Move c d → Reach w c.gate → Reach w d.gate
Move-Reach c d (refuses e) r = rw e r
Move-Reach c d (asks e) r = rw e (Reach.next r (arrives refl))
Move-Reach c d (goes_on i waiting e) r = rw e (Reach.next r (wakes i waiting refl))
Move-Reach c d (finishes holds e) r = rw e (Reach.next r (leaves holds refl))
Move-Reach c d (finishes_refused any e) r = rw e r

-- Every chat counted is refused, waits, or holds a ticket.
abbrev pub IsCounted : Chats → Type 0
IsCounted c = c.in_flight ≡ c.refused + length c.gate.suspended + c.gate.holders

length-erase_member :
    (i : ℕ) (xs : List ℕ) → contains i xs ≡ true → length (erase_first i xs) + 1 ≡ length xs
unfolding contains erase_first
length-erase_member i [] h = cc
length-erase_member i (x ∷ xs) h = ground (arith, length-erase_member i xs)

arrive-counts :
    (w : World)
    → refused_on_entry (enter w.gate).1 + length (arrive w).suspended + (arrive w).holders
      ≡ suc (length w.suspended + w.holders)
unfolding arrive enter
arrive-counts w = ground (arith, length-append w.suspended (w.gate.next_waiter ∷ []))

wake-counts :
    (w : World) (i : ℕ)
    → contains i w.suspended ≡ true
    → refused_on_resume (resume w.gate i).1 + length (wake w i).suspended + (wake w i).holders
      ≡ length w.suspended + w.holders
unfolding wake resume
wake-counts w i h = ground (arith, length-erase_member i w.suspended h)

leave-counts : (w : World) → 0 < w.holders → (leave w).holders + 1 ≡ w.holders
unfolding leave
leave-counts w h = omega arith

leave-suspended : (w : World) → (leave w).suspended ≡ w.suspended
unfolding leave
leave-suspended w = refl

Move-IsCounted : (c d : Chats) → Move c d → IsCounted c → IsCounted d
Move-IsCounted c d (refuses e) h = rw e (omega (arith, h))
Move-IsCounted c d (asks e) h = rw e (omega (arith, h, arrive-counts c.gate))
Move-IsCounted c d (goes_on i waiting e) h = rw e (omega (arith, h, wake-counts c.gate i waiting))
Move-IsCounted c d (finishes holds e) h =
    rw (e, leave-suspended c.gate) (omega (arith, h, holds, leave-counts c.gate holds))
Move-IsCounted c d (finishes_refused any e) h = rw e (omega (arith, h))

Run-IsCounted : (ceiling depth : ℕ) (c : Chats) → Run (none_yet ceiling depth) c → IsCounted c
Run-IsCounted ceiling depth c stays = omega arith
Run-IsCounted ceiling depth c (moves {d = b} r m) =
    Move-IsCounted b c m (Run-IsCounted ceiling depth b r)

Run-Reach :
    (ceiling depth : ℕ) (c : Chats)
    → Run (none_yet ceiling depth) c
    → Reach (start ceiling depth) c.gate
Run-Reach ceiling depth c stays = here
Run-Reach ceiling depth c (moves {d = b} r m) = Move-Reach b c m (Run-Reach ceiling depth b r)

length-zero {ℓ} : {A : Type ℓ} (xs : List A) → length xs ≡ 0 → xs ≡ []
length-zero [] h = refl
length-zero (x ∷ xs) h = ground arith

-- However chats come, are refused, wait, go on and end: each chat in flight is being refused, waits for a
-- slot or holds one, and no more hold one than the gate's ceiling; and when none is in flight, the gate
-- counts no slot and its queue is empty.
pub Run-Counted :
    (ceiling depth : ℕ) (c : Chats)
    → Run (none_yet ceiling depth) c
    → (c.in_flight ≡ c.refused + length c.gate.suspended + c.gate.holders)
      × (c.gate.holders ≤ ceiling)
      × (c.in_flight ≡ 0 → (c.gate.gate.in_flight ≡ 0) × (c.gate.gate.waiters ≡ []))
Run-Counted ceiling depth c r =
    let counted = Run-IsCounted ceiling depth c r in
    let v = Reach-Inv ceiling depth (Run-Reach ceiling depth c r) in
    (
      counted,
      omega (arith, v.conserved, v.within),
      λ idle.
          let nobody = length-zero c.gate.suspended (omega (arith, idle, counted)) in
          Inv-unused v nobody (omega (arith, idle, counted)),
    )
