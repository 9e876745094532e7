-- ===== src/ArtNet/Server/Loops.antt =====
-- The coroutines that send, of custom_components/dmx/server/artnet_server.py: each belongs to an own
-- port that names it as its task, and the sequence number stays in its range.
use ha_artnet_led.Base.{
  ℕ, zero, suc, ◌<◌, ◌≤◌, ◌≡◌, ◌≢◌, refl, sym, ap, ◌∙◌, subst, Bool, true, false, List, [], ◌∷◌,
  Option, some, none, arith, get_elem?, set, length, length-set,
}
use ha_artnet_led.Base.Action.{Holds, IsJoined, >>=-Holds, change, calls}
use ha_artnet_led.Base.Dict.{Dict, nat_eq, lookup, Unique}
use ha_artnet_led.ArtNet.Server.{ArtNetServer, OwnPort, DmxLoop, Event, update_status_message}
use ha_artnet_led.ArtNet.Server.Replies.{Method, update_subscribers}
use ha_artnet_led.ArtNet.Server.Sending.{
  modify_object, modify_port, set_transmitted, show_transmitted,
}
use ha_artnet_led.ArtNet.Server.Frame.{update_subscribers-OnlyCounts}

-- The task that the own port at `r` names.
abbrev pub task_of : Option OwnPort → Option ℕ
task_of none = none
task_of (some o) = o.update_task

abbrev pub task_at : ℕ → ArtNetServer → Option ℕ
task_at r s = task_of (get_elem? s.store r)

-- The range of the sequence number: 1 to 255, or 0 where it is not used.
abbrev pub IsNumbered : Bool → ℕ → Type 0
IsNumbered true n = (1 ≤ n) × (n ≤ 255)
IsNumbered false n = n ≡ 0

-- The invariant: every coroutine that has not ended is the task of its own port.
pub record IsOwned (s : ArtNetServer) : Type 0 where
  pub owned :
      (id : ℕ) (l : DmxLoop)
      → lookup id s.loops ≡ some l
      → (id < s.next_loop) × (task_at l.own_port s ≡ some id)
  pub unique : Unique s.loops
  pub numbered : IsNumbered s.sequencing s.sequence_number

-- What leaves the coroutines and the tasks alone.
pub record SameLoops (s t : ArtNetServer) (es : List Event) : Type 0 where
  pub loops : t.loops ≡ s.loops
  pub next_loop : t.next_loop ≡ s.next_loop
  pub tasks : (r : ℕ) → task_at r t ≡ task_at r s
  pub size : length t.store ≡ length s.store
  pub sequencing : t.sequencing ≡ s.sequencing
  pub sequence_number : t.sequence_number ≡ s.sequence_number

pub same_loops : IsJoined SameLoops
same_loops = record {
  stay = λ s. record {
    loops = refl;
    next_loop = refl;
    tasks = λ r. refl;
    size = refl;
    sequencing = refl;
    sequence_number = refl;
  };
  join = λ s t u es fs h k. record {
    loops = k.loops ∙ h.loops;
    next_loop = k.next_loop ∙ h.next_loop;
    tasks = λ r. k.tasks r ∙ h.tasks r;
    size = k.size ∙ h.size;
    sequencing = k.sequencing ∙ h.sequencing;
    sequence_number = k.sequence_number ∙ h.sequence_number;
  };
}

pub update_subscribers-SameLoops : Holds SameLoops update_subscribers
update_subscribers-SameLoops = record {
  at = λ s.
      let h = (update_subscribers-OnlyCounts.at s).same in
      record {
        loops = ap (λ (x : ArtNetServer). x.loops) h;
        next_loop = ap (λ (x : ArtNetServer). x.next_loop) h;
        tasks = λ r. ap (λ (x : ArtNetServer). task_at r x) h;
        size = ap (λ (x : ArtNetServer). length x.store) h;
        sequencing = ap (λ (x : ArtNetServer). x.sequencing) h;
        sequence_number = ap (λ (x : ArtNetServer). x.sequence_number) h;
      };
}

status-store : (s : ArtNetServer) → (update_status_message s).store ≡ s.store
unfolding update_status_message
status-store s = ground arith

pub status-SameLoops : Holds SameLoops (change update_status_message)
unfolding change update_status_message
status-SameLoops = record {
  at = λ s. record {
    loops = ground arith;
    next_loop = ground arith;
    tasks = λ r. ap (λ st. task_of (get_elem? st r)) (status-store s);
    size = ap length (status-store s);
    sequencing = ground arith;
    sequence_number = ground arith;
  };
}

set-task :
    (store : List OwnPort) (r q : ℕ) (o o' : OwnPort)
    → get_elem? store r ≡ some o
    → o'.update_task ≡ o.update_task
    → task_of (get_elem? (set store r o') q) ≡ task_of (get_elem? store q)
set-task [] r q o o' h e = refl
set-task (x ∷ xs) zero zero o o' h e = e ∙ ap task_of (sym h)
set-task (x ∷ xs) zero (suc q) o o' h e = refl
set-task (x ∷ xs) (suc r) zero o o' h e = refl
set-task (x ∷ xs) (suc r) (suc q) o o' h e = set-task xs r q o o' h e

modify_object-SameLoops :
    (r : ℕ) (f : OwnPort → OwnPort)
    → ((o : OwnPort) → (f o).update_task ≡ o.update_task)
    → (s : ArtNetServer) (o : Option OwnPort) → get_elem? s.store r ≡ o
    → SameLoops s (modify_object r f s o) []
modify_object-SameLoops r f keeps s none e = same_loops.stay s
modify_object-SameLoops r f keeps s (some o) e = record {
  loops = refl;
  next_loop = refl;
  tasks = λ q. set-task s.store r q o (f o) e (keeps o);
  size = length-set s.store r (f o);
  sequencing = refl;
  sequence_number = refl;
}

-- A change of an own port that is not its task.
pub modify_port-SameLoops :
    (r : ℕ) (f : OwnPort → OwnPort)
    → ((o : OwnPort) → (f o).update_task ≡ o.update_task)
    → Holds SameLoops (change (modify_port r f))
unfolding change modify_port
modify_port-SameLoops r f keeps = record {
  at = λ s. modify_object-SameLoops r f keeps s (get_elem? s.store r) refl;
}

pub calls-SameLoops : (es : List Event) → Holds SameLoops (calls es)
unfolding calls
calls-SameLoops es = record {
  at = λ s. record {
    loops = refl;
    next_loop = refl;
    tasks = λ r. refl;
    size = refl;
    sequencing = refl;
    sequence_number = refl;
  };
}

pub show_transmitted-SameLoops : (b : Bool) (r : ℕ) → Holds SameLoops (show_transmitted b r)
unfolding show_transmitted
show_transmitted-SameLoops b r =
    >>=-Holds same_loops _ _ (modify_port-SameLoops r (set_transmitted b) (λ o. refl))
      (λ _. >>=-Holds same_loops _ _ status-SameLoops (λ _. update_subscribers-SameLoops))

-- The invariant, and with it that `id` is the task of `r`, or that no coroutine has the own port `r`.
pub SameLoops-IsOwned :
    (s t : ArtNetServer) (es : List Event) → SameLoops s t es → IsOwned s → IsOwned t
SameLoops-IsOwned s t es h w = record {
  owned = λ id l e.
      let (low, task) = w.owned id l (sym (ap (lookup id) h.loops) ∙ e) in
      (rw h.next_loop low, h.tasks l.own_port ∙ task);
  unique = subst (λ (d : Dict ℕ DmxLoop). Unique d) (sym h.loops) w.unique;
  numbered = rw (h.sequencing, h.sequence_number) w.numbered;
}

abbrev pub Free : ℕ → ArtNetServer → Type 0
Free r s =
    (r < length s.store) × ((id : ℕ) (l : DmxLoop) → lookup id s.loops ≡ some l → l.own_port ≢ r)

abbrev pub Owner : ℕ → ℕ → ArtNetServer → Type 0
Owner id r s = (id < s.next_loop) × (task_at r s ≡ some id)

-- The relations that the invariant is kept along: for any call, for one made while no coroutine has
-- the own port `r`, and for a step of the coroutine `id`.
abbrev pub Keeps : ArtNetServer → ArtNetServer → List Event → Type 0
Keeps s t es = IsOwned s → IsOwned t

abbrev pub KeepsFree : ℕ → ArtNetServer → ArtNetServer → List Event → Type 0
KeepsFree r s t es = IsOwned s × Free r s → IsOwned t × Free r t

abbrev pub KeepsOwner : ℕ → ℕ → ArtNetServer → ArtNetServer → List Event → Type 0
KeepsOwner id r s t es = IsOwned s × Owner id r s → IsOwned t × Owner id r t

pub keeps : IsJoined Keeps
keeps = record { stay = λ s w. w; join = λ s t u es fs h k w. k (h w) }

pub keeps_free : (r : ℕ) → IsJoined (KeepsFree r)
keeps_free r = record { stay = λ s w. w; join = λ s t u es fs h k w. k (h w) }

pub keeps_owner : (id r : ℕ) → IsJoined (KeepsOwner id r)
keeps_owner id r = record { stay = λ s w. w; join = λ s t u es fs h k w. k (h w) }

pub SameLoops-Keeps : {A : Type 0} (call : Method A) → Holds SameLoops call → Holds Keeps call
SameLoops-Keeps call h = record { at = λ s. SameLoops-IsOwned s _ _ (h.at s) }

pub SameLoops-KeepsFree :
    {A : Type 0} (r : ℕ) (call : Method A) → Holds SameLoops call → Holds (KeepsFree r) call
SameLoops-KeepsFree r call h = record {
  at = λ s (w, (low, free)). (
    SameLoops-IsOwned s _ _ (h.at s) w,
    (rw ((h.at s).size) low, λ id l e. free id l (sym (ap (lookup id) (h.at s).loops) ∙ e)),
  );
}

pub SameLoops-KeepsOwner :
    {A : Type 0} (id r : ℕ) (call : Method A) → Holds SameLoops call → Holds (KeepsOwner id r) call
SameLoops-KeepsOwner id r call h = record {
  at = λ s (w, (low, task)).
      (SameLoops-IsOwned s _ _ (h.at s) w, (rw ((h.at s).next_loop) low, (h.at s).tasks r ∙ task));
}
