-- ===== src/Application/Burst/Samples.antt =====
-- A small burst.
use os_mini_project.Common.{◌+◌, ◌^◌, ◌≡◌, refl, List, [], ◌∷◌, arith, ok, inl}
use os_mini_project.Coordinator.State.{JobSubmission}
use os_mini_project.Application.Burst.{
  CreateBurstRequest, Numerics, uniform, bounded_normal, uniform_interval, generate_burst,
}
use os_mini_project.Application.Burst.Generated.{IsBurst, generate_burst-IsBurst}
use os_mini_project.Application.Burst.Returns.{generate_burst-Returns}

abbrev simple : Numerics
simple = record {
  gap = λ state mean. mean;
  normal_value = λ d first second. 50;
  deterministic_uuid = λ seed index. seed + index;
}

abbrev request : CreateBurstRequest
request = record {
  seed = 7;
  count = 3;
  arrival = uniform_interval 1_000;
  pages = uniform 1 20;
  priority = bounded_normal 0 40;
  color_ratio = 2 ^ 31;
  duplex_ratio = 0;
  name_prefix = 74 ∷ [];
}

generate_burst-Returns_example :
    (jobs : List JobSubmission) × (generate_burst simple request 9 ≡ ok jobs)
generate_burst-Returns_example =
    generate_burst-Returns simple request 9 1_000 (inl refl) (omega arith)

abbrev generated : (jobs : List JobSubmission) × (generate_burst simple request 9 ≡ ok jobs)
generated = generate_burst-Returns simple request 9 1_000 (inl refl) (omega arith)

generate_burst-IsBurst_example : IsBurst simple request 9 3 0 0 generated.0
generate_burst-IsBurst_example =
    generate_burst-IsBurst simple request 9 generated.0 (omega arith) (omega arith) (omega arith)
      generated.1
