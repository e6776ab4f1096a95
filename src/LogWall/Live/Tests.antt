-- ===== src/LogWall/Live/Tests.antt =====
-- Five clients that go away before the headers are sent shut the live tail.
use lustro_node_agent.Base.{ℕ, suc, zero, ◌+◌, ◌≤◌, ◌≡◌, refl, none, some}
use lustro_node_agent.Base.Result.{os_error}
use lustro_node_agent.Base.Exec.{returned, final}
use lustro_node_agent.LogWall.{send_json, error_body}
use lustro_node_agent.LogWall.Live.{Wall, max_sse_clients, opened, enter_tail, here, later, enters}
use lustro_node_agent.LogWall.Live.Permits.{Reach-permits, Reach-refused}

abbrev after_one : Wall
after_one = final (enter_tail none opened)

abbrev after_two : Wall
after_two = final (enter_tail (some os_error) after_one)

Reach-permits_example :
    (after_two.streaming ≤ max_sse_clients)
    × (after_two.permits + after_two.streaming + after_two.lost ≡ max_sse_clients)
Reach-permits_example = Reach-permits (later (later here (enters none)) (enters (some os_error)))

abbrev gone : ℕ → Wall
gone zero = opened
gone (suc n) = final (enter_tail (some os_error) (gone n))

gone_five : (gone 5).permits ≡ 0
unfolding enter_tail
gone_five = refl

gone_five_idle : (gone 5).streaming ≡ 0
unfolding enter_tail
gone_five_idle = refl

Reach-refused_example :
    ((final (enter_tail none (gone 5))).permits ≡ 0)
    × ((final (enter_tail none (gone 5))).streaming ≡ 0)
    × (enter_tail none (final (enter_tail none (gone 5)))
        ≡ returned
            (send_json 503 (error_body "too many live clients"))
            (final (enter_tail none (gone 5))))
Reach-refused_example = Reach-refused none (later here (enters none)) gone_five gone_five_idle
