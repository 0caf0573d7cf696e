-- ===== src/Services/Health/Limits/Tests.antt =====
-- The health at concrete answers: the store does not answer, and Celery is late.
use cluster_deployer.Common.{◌≡◌, ◌≤◌, true, false}
use cluster_deployer.Common.Result.{ok}
use cluster_deployer.Services.Health.{get_health}
use cluster_deployer.Services.Health.Limits.{
  answers, no_answer, timed_out, spent_all, timed_get_health, health_answers,
}
use cluster_deployer.Util.Timeout.{ended, never}
use cluster_deployer.Value.{str}

health_answers_example :
    (timed_get_health true true
        (answers 2 (ok (str "etcd")))
        no_answer
        (answers 12 (ok (str "pong")))
        0
      ≡ ended (get_health true (ok (str "etcd")) timed_out timed_out) 0 22)
    × (spent_all true (answers 2 (ok (str "etcd"))) no_answer (answers 12 (ok (str "pong"))) ≤ 30)
    × (timed_get_health false true no_answer no_answer (answers 12 (ok (str "pong"))) 0 ≡ never)
health_answers_example =
    health_answers true (answers 2 (ok (str "etcd"))) no_answer (answers 12 (ok (str "pong"))) 0
