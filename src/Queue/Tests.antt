-- ===== src/Queue/Tests.antt =====
-- A window of three elements.
use dsyrup.Base.{◌≡◌, refl, [], ◌∷◌, arith}
use dsyrup.Queue.{Bqueue, init_size, push_all, push, make_room, enter}
use dsyrup.Queue.Slices.{IsQueue, content}
use dsyrup.Queue.Recent.{push_all-recent, init_size-IsQueue}

abbrev three : Bqueue
three = push_all (init_size 3) (5 ∷ 2 ∷ 9 ∷ 4 ∷ [])

three-IsQueue : IsQueue three
three-IsQueue =
    (push_all-recent (init_size 3) (5 ∷ 2 ∷ 9 ∷ 4 ∷ []) (init_size-IsQueue 3 (omega arith))).0

push_all-recent_example :
    IsQueue (push_all three (7 ∷ [])) × (content (push_all three (7 ∷ [])) ≡ 9 ∷ 4 ∷ 7 ∷ [])
unfolding init_size push_all push make_room enter
push_all-recent_example = push_all-recent three (7 ∷ []) three-IsQueue

sum_of_three : three.sumofqueue ≡ 15
unfolding init_size push_all push make_room enter
sum_of_three = refl
