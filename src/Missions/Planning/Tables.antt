-- ===== src/Missions/Planning/Tables.antt =====
-- The blueprints of src/v2/application/missions/default_mission_planning_strategy.ts.
use local_first_se_platform.Base.{
  ℕ, String, Bool, true, false, Option, List, [], ◌∷◌, if◌then◌else◌, take,
}
use local_first_se_platform.Missions.Plan.{
  low, medium as middle, high, critical, MissionExecutionPlan,
}
use local_first_se_platform.Missions.Planning.{
  TeamSizeTier, small, TeamSizeEstimate, estimate, TaskBlueprint, blueprint, plan_from,
}

unfoldable pub blueprints : List TaskBlueprint
blueprints =
    blueprint "Design System Architecture"
      "Design architecture, endpoints, and data contracts for goal: " "Architecture" critical 3 []
      [] 1
    ∷ blueprint "Define Database Schema & Data Models"
        "Create data schemas and database migration models for " "Backend" high 2 (1 ∷ []) [] 2
    ∷ blueprint "Implement Express REST Server Endpoints"
        "Implement core API routes, controllers, and service handlers for " "Backend" high 4
        (1 ∷ 2 ∷ []) [] 3
    ∷ blueprint "Implement Authentication & Authorization Middleware"
        "Add JWT authentication and permission middleware for " "Backend" high 3 (3 ∷ []) [] 4
    ∷ blueprint "Write Verification Unit & Integration Tests"
        "Create test suites covering API routes and middleware for " "QA" middle 2 (4 ∷ []) [] 5
    ∷ blueprint "Generate OpenAPI Specifications & Documentation"
        "Generate OpenAPI spec and developer documentation for " "Documentation" low 1 (4 ∷ [])
        (4 ∷ []) 5
    ∷ blueprint "Implement API Gateway & Rate Limiting"
        "Add an API gateway layer with rate limiting and request routing for " "Backend" middle 3
        (4 ∷ []) [] 5
    ∷ blueprint "Add Caching & Performance Layer"
        "Introduce a caching layer to meet performance targets for " "Backend" middle 2 (4 ∷ []) []
        5
    ∷ blueprint "Implement Structured Logging & Observability"
        "Add structured logging, metrics, and tracing across services for " "Backend" middle 3
        (4 ∷ []) [] 5
    ∷ blueprint "Load & Integration Testing Suite"
        "Run load and cross-service integration testing for " "QA" high 3 (7 ∷ 8 ∷ 9 ∷ []) [] 6
    ∷ blueprint "Multi-Region Deployment Pipeline"
        "Build a multi-region deployment and rollout pipeline for " "Backend" high 4 (10 ∷ []) [] 7
    ∷ blueprint "Compliance & Audit Logging"
        "Add compliance-grade audit logging and retention policies for " "Backend" high 3 (4 ∷ [])
        [] 7
    ∷ blueprint "Security Hardening & Access Review"
        "Harden security posture and review access controls for " "Backend" critical 4 (4 ∷ []) [] 7
    ∷ blueprint "Internal Admin Console" "Build an internal admin console for operating " "Backend"
        middle 3 (3 ∷ []) [] 7
    ∷ blueprint "Disaster Recovery & Load Testing"
        "Validate disaster recovery and run production-scale load testing for " "QA" high 3
        (11 ∷ []) [] 8
    ∷ []

unfoldable pub small_blueprints : List TaskBlueprint
small_blueprints =
    blueprint "Design Minimal Architecture" "Sketch the minimal architecture needed for goal: "
      "Architecture" high 1 [] [] 1
    ∷ blueprint "Implement Core Functionality"
        "Implement the core functionality directly needed for " "Backend" high 2 (1 ∷ []) [] 2
    ∷ blueprint "Write Verification Tests" "Write tests covering the implemented functionality for "
        "QA" middle 1 (2 ∷ []) [] 3
    ∷ []

abbrev pub is_small : TeamSizeTier → Bool
is_small small = true
is_small _ = false

-- `tier === 'SMALL' ? SMALL_BLUEPRINTS : BLUEPRINTS.slice(0, taskCount)`
unfoldable pub select_blueprints : TeamSizeEstimate → List TaskBlueprint
unfolding blueprints small_blueprints
select_blueprints e = if is_small e.tier then small_blueprints else take e.task_count blueprints

-- `planMission`: `lower` is the goal in lower case and `word_count` the number of its words.
unfoldable pub plan_mission :
    String → String → String → ℕ → Option String → Option String → MissionExecutionPlan
unfolding select_blueprints estimate plan_from
plan_mission mission_id goal lower word_count workspace_path project_id =
    plan_from mission_id goal workspace_path project_id
      (select_blueprints (estimate lower word_count))
