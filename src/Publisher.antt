-- ===== src/Publisher.antt =====
-- ros/publisher.go: the loop of a publisher over its sessions, one function for each case of its select.
pub mod Session
pub mod Deliveries
use rosgo.Prelude.{ℕ, Bool, true, false, List, [], ◌∷◌, ◌++◌, Bytes, ◌==◌, if◌then◌else◌}

-- What the loop may receive. A session is a number: the source compares pointers.
pub data Event : Type 0 where
  message : Bytes → Event
  session_new session_error : ℕ → Event
  other_error listener_error shutdown : Event

-- What the loop sends: a message on the channel of a session, the signal to quit, and the call that
-- tells the master.
pub data Action : Type 0 where
  deliver : ℕ → Bytes → Action
  tell_quit : ℕ → Action
  unregister : Action

-- The sessions, what was sent, and whether the loop goes on.
pub record Turn : Type 0 where
  pub sessions : List ℕ
  pub actions : List Action
  pub goes_on : Bool

abbrev pub deliver_all : Bytes → List ℕ → List Action
deliver_all msg [] = []
deliver_all msg (s ∷ ss) = deliver s msg ∷ deliver_all msg ss

abbrev pub quit_all : List ℕ → List Action
quit_all [] = []
quit_all (s ∷ ss) = tell_quit s ∷ quit_all ss

-- The search for the session that reports, up to the first that is it.
unfoldable pub remove_first : ℕ → List ℕ → List ℕ
remove_first i [] = []
remove_first i (s ∷ ss) = if s == i then ss else s ∷ remove_first i ss

unfoldable pub turn : Event → List ℕ → Turn
turn (message msg) ss = record { sessions = ss; actions = deliver_all msg ss; goes_on = true }
turn listener_error ss = record { sessions = ss; actions = []; goes_on = false }
turn (session_new s) ss = record { sessions = ss ++ s ∷ []; actions = []; goes_on = true }
turn (session_error s) ss = record { sessions = remove_first s ss; actions = []; goes_on = true }
turn other_error ss = record { sessions = ss; actions = []; goes_on = true }
turn shutdown ss = record { sessions = []; actions = unregister ∷ quit_all ss; goes_on = false }

-- What the rest of the loop sends behind a turn.
abbrev pub behind : (List ℕ → List Action) → Turn → List Action
behind next t = t.actions ++ (if t.goes_on then next t.sessions else [])

-- All that the loop sends. What arrives behind a return of the loop is not read.
unfoldable pub run : List Event → List ℕ → List Action
run [] ss = []
run (e ∷ es) ss = behind (run es) (turn e ss)
