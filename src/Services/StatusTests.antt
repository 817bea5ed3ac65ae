-- ===== src/Services/StatusTests.antt =====
-- A tenant that asks for another one's service.
use agentic_paasd.Prelude.{refl, true, false, Text, codes, find, same, []}
use agentic_paasd.Runtime.{Error}
use agentic_paasd.Services.Statuses.{Refuses, foreign_service_is_missing}
use agentic_paasd.Services.Handlers.{
  handle_service_get, handle_service_delete, handle_service_stop, handle_service_restart,
  handle_service_logs, handle_service_env_get, handle_service_env_delete, handle_service_reset,
}
use agentic_paasd.Services.Tests.{sample_env, sample_world}

abbrev no_detail : Error → Text
no_detail e = []

foreign_service_is_missing_example :
    let t = codes "t2" in
    let i = codes "s1" in
    Refuses 404 (handle_service_get sample_env no_detail true t i) (sample_world false)
    × Refuses 404 (handle_service_delete sample_env no_detail true t i) (sample_world false)
    × Refuses 404 (handle_service_stop sample_env no_detail true t i) (sample_world false)
    × Refuses 404 (handle_service_restart sample_env no_detail true t i) (sample_world false)
    × Refuses 404 (handle_service_logs sample_env no_detail true t i) (sample_world false)
    × Refuses 404 (handle_service_reset sample_env no_detail true t i) (sample_world false)
    × Refuses 404 (handle_service_env_get sample_env no_detail true t i false) (sample_world false)
    × Refuses 404
        (handle_service_env_delete sample_env no_detail true t i (codes "K"))
        (sample_world false)
unfolding find same
foreign_service_is_missing_example =
    foreign_service_is_missing sample_env no_detail (codes "t2") (codes "s1") (codes "K") false
      (sample_world false) refl refl
