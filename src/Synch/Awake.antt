-- ===== src/Synch/Awake.antt =====
-- Release, Signal and Broadcast of code/threads/synch.cc leave their caller on the processor.
use usc_cs.Common.{ℕ, zero, suc, Option, none, some, List, [], ◌∷◌, ◌≡◌, refl, ◌∙◌, length, arith}
use usc_cs.Kernel.{System, of_lock, of_condition}
use usc_cs.Synch.{lock_destructor, condition_destructor, release, signal, broadcast, broadcast_loop}

-- The same thread has the processor.
pub record StaysOn (s s' : System) : Type 0 where
  pub current : s'.current ≡ s.current
  pub idling : s'.idling ≡ s.idling

pub StaysOn-trans : (s s' s'' : System) → StaysOn s s' → StaysOn s' s'' → StaysOn s s''
StaysOn-trans s s' s'' a b = record {
  current = b.current ∙ a.current;
  idling = b.idling ∙ a.idling;
}

released : (l : ℕ) (s : System) (ts : List ℕ) → s.queues (of_lock l) ≡ ts → StaysOn s (release l s)
unfolding release
released l s [] e = record { current = ground arith; idling = ground arith }
released l s (t ∷ ts) e = record { current = ground arith; idling = ground arith }

pub release-StaysOn : (l : ℕ) (s : System) → StaysOn s (release l s)
release-StaysOn l s = released l s (s.queues (of_lock l)) refl

signalled :
    (c l : ℕ) (s : System) (ts : List ℕ)
    → s.queues (of_condition c) ≡ ts
    → StaysOn s (signal c (some l) s)
unfolding signal
signalled c l s [] e = record { current = ground arith; idling = ground arith }
signalled c l s (t ∷ []) e = record { current = ground arith; idling = ground arith }
signalled c l s (t ∷ u ∷ ts) e = record { current = ground arith; idling = ground arith }

pub signal-StaysOn : (c : ℕ) (o : Option ℕ) (s : System) → StaysOn s (signal c o s)
unfolding signal
signal-StaysOn c none s = record { current = refl; idling = refl }
signal-StaysOn c (some l) s = signalled c l s (s.queues (of_condition c)) refl

broadcast_loop-StaysOn : (rounds c l : ℕ) (s : System) → StaysOn s (broadcast_loop rounds c l s)
unfolding broadcast_loop
broadcast_loop-StaysOn zero c l s = record { current = refl; idling = refl }
broadcast_loop-StaysOn (suc rounds) c l s =
    let first = signal-StaysOn c (some l) s in
    let later = broadcast_loop-StaysOn rounds c l (signal c (some l) s) in
    record { current = ground (arith, first, later); idling = ground (arith, first, later) }

pub broadcast-StaysOn : (c : ℕ) (o : Option ℕ) (s : System) → StaysOn s (broadcast c o s)
unfolding broadcast
broadcast-StaysOn c none s = record { current = refl; idling = refl }
broadcast-StaysOn c (some l) s =
    let all = broadcast_loop-StaysOn (length (s.queues (of_condition c))) c l s in
    record { current = ground (arith, all); idling = ground (arith, all) }

pub destroyed_lock : (l : ℕ) (s : System) → StaysOn s (lock_destructor l s)
unfolding lock_destructor
destroyed_lock l s = record { current = refl; idling = refl }

pub destroyed_condition : (c : ℕ) (s : System) → StaysOn s (condition_destructor c s)
unfolding condition_destructor
destroyed_condition c s = record { current = refl; idling = refl }
