-- ===== src/IoManager/Manager/Tests.antt =====
-- An IOManager over an epoll instance that accepts every call.
use eva.Base.{◌≡◌, refl, true, false, List, [], ◌∷◌, none, some, ok, abort, undefined, pos, Outcome}
use eva.IoManager.{read, write, IoManager}
use eva.IoManager.Samples.{take_all, epoll, clean, caller, only_pipe, only_pipe_lem}
use eva.IoManager.Manager.{Request, adds, dels, fires, init, add_event, requests}
use eva.IoManager.Manager.Mirror.{Mirrors, requests-Mirrors}
use eva.IoManager.Manager.Once.{add_event_once}

abbrev or_else : {A : Type 0} → Outcome A → A → A
or_else (ok a) d = a
or_else abort d = d
or_else undefined d = d

abbrev empty : IoManager epoll
empty = init epoll clean only_pipe

abbrev served_requests : List Request
served_requests =
    adds caller (pos 3) read (some 7)
    ∷ adds caller (pos 40) write none
    ∷ fires 3 (record { rd = true; wr = false }) false
    ∷ []

served : IoManager epoll
unfolding requests take_all
served = or_else (requests epoll clean empty served_requests) empty

served_lem : requests epoll clean empty served_requests ≡ ok served
unfolding served init
served_lem = refl

pending_one : served.pending_count ≡ 1
unfolding served init
pending_one = refl

requests-Mirrors_example : Mirrors epoll 4 served
requests-Mirrors_example =
    requests-Mirrors epoll clean 4 only_pipe served_requests served (λ i. refl) only_pipe_lem
      served_lem

one_added : IoManager epoll
unfolding requests take_all
one_added = or_else (requests epoll clean empty (adds caller (pos 3) read (some 7) ∷ [])) empty

one_added_lem : add_event epoll clean caller empty (pos 3) read (some 7) ≡ ok (one_added, true)
unfolding one_added init
one_added_lem = refl

one_deleted : IoManager epoll
unfolding requests take_all one_added
one_deleted = or_else (requests epoll clean one_added (dels (pos 3) read ∷ [])) empty

one_deleted_lem : requests epoll clean one_added (dels (pos 3) read ∷ []) ≡ ok one_deleted
unfolding one_deleted init
one_deleted_lem = refl

add_event_once_example : add_event epoll clean caller one_deleted (pos 3) read none ≡ abort
add_event_once_example =
    add_event_once epoll clean empty one_added one_deleted caller caller 3 read (some 7) none true
      (dels (pos 3) read ∷ []) one_added_lem one_deleted_lem
