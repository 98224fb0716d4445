-- ===== src/Ecs/Shared.antt =====
-- What the report on the health of a service hands on to another caller.
use aws_mcp_gateway.Base.{◌≡◌, String, List, [], ◌∷◌}
use aws_mcp_gateway.Errors.{ok}
use aws_mcp_gateway.Credentials.{AwsCredentials}
use aws_mcp_gateway.Cache.Keys.{Hashing}
use aws_mcp_gateway.Aws.{Cloud, Kept, lift, defined}
use aws_mcp_gateway.Aws.Shared.{
  IsSound, Holds, cached-Holds, cached-fills, written-Holds, go_on-ok, LeavesCache,
  LeavesCache-IsSound, >>=-LeavesCache, lift-LeavesCache, aws_request-LeavesCache,
}
use aws_mcp_gateway.Ecs.Parse.{EcsServiceHealth, normalize_service_health}
use aws_mcp_gateway.Ecs.Requests.{Ecs, describe_clusters, describe_services}
use aws_mcp_gateway.Ecs.Tasks.{assert_cluster_exists}
use aws_mcp_gateway.Ecs.Reports.{
  get_service_health, validate_cluster_name, validate_service_name, service_in, fresh_health,
}

module _ (ecs : Ecs) {E : Type 0} (region : String) (credentials : AwsCredentials)
    (cluster : String) where
  describe_clusters-LeavesCache :
      (names : List String) → LeavesCache (describe_clusters ecs {E = E} region credentials names)
  unfolding describe_clusters
  describe_clusters-LeavesCache names = aws_request-LeavesCache _ _ _ _ _

  assert_cluster_exists-LeavesCache :
      LeavesCache (assert_cluster_exists ecs {E = E} region credentials cluster)
  unfolding assert_cluster_exists
  assert_cluster_exists-LeavesCache =
      search (>>=-LeavesCache, lift-LeavesCache, describe_clusters-LeavesCache)

  describe_services-LeavesCache :
      (names : List String)
      → LeavesCache (describe_services ecs {E = E} region credentials cluster names)
  unfolding describe_services
  describe_services-LeavesCache names = aws_request-LeavesCache _ _ _ _ _

module _ (ecs : Ecs) (hashing : Hashing) {E : Type 0} (kept : Kept E EcsServiceHealth)
    (cluster service region : String) where
  -- a report that was made is held
  fresh_health-Holds :
      (key : String) (credentials : AwsCredentials) (health : EcsServiceHealth) (s s1 : Cloud E)
      → IsSound s
      → fresh_health ecs hashing kept key cluster service region credentials s ≡ (ok health, s1)
      → Holds kept key health s1
  unfolding fresh_health
  fresh_health-Holds key credentials health s s1 sound h =
      let found = assert_cluster_exists ecs region credentials cluster s in
      let (_, (_, h1)) = go_on-ok found _ health s1 h in
      let asked = describe_services ecs region credentials cluster (service ∷ []) found.1 in
      let (answer, (_, h2)) = go_on-ok asked _ health s1 h1 in
      let (response, (_, h3)) = go_on-ok (defined answer, asked.1) _ health s1 h2 in
      let (raw, (_, h4)) = go_on-ok (service_in cluster service response, asked.1) _ health s1 h3 in
      let found_sound =
        LeavesCache-IsSound (assert_cluster_exists ecs region credentials cluster) s
          (assert_cluster_exists-LeavesCache ecs region credentials cluster) sound in
      let asked_sound =
        LeavesCache-IsSound (describe_services ecs region credentials cluster (service ∷ []))
          found.1 (describe_services-LeavesCache ecs region credentials cluster (service ∷ []))
          found_sound in
      written-Holds kept key (normalize_service_health cluster service region raw) health asked.1 s1
        asked_sound h4

  -- When the namespace is there and works, and a report on the health of a service succeeded for one caller, then
  -- a report on the same cluster, service and region that follows gives any other caller, whose credentials may be
  -- those of another account, the answer that the first one was given, and sends no request.
  pub get_service_health-shared :
      (mine theirs : AwsCredentials) (health : EcsServiceHealth) (s s1 : Cloud E)
      → IsSound s
      → get_service_health ecs hashing kept cluster service region mine s ≡ (ok health, s1)
      → (s2 : Cloud E) × (get_service_health ecs hashing kept cluster service region theirs s1
          ≡ (ok health, s2))
        × (s2.sent ≡ s1.sent)
  unfolding get_service_health
  get_service_health-shared mine theirs health s s1 sound h =
      let (a, (valid, h1)) =
        go_on-ok (lift {E = E} (validate_cluster_name cluster) s) _ health s1 h in
      let (b, (valid', h2)) =
        go_on-ok (lift {E = E} (validate_service_name service) s) _ health s1 h1 in
      let held =
        cached-fills kept _ health _ s s1 sound h2
          (λ s' sound'. fresh_health-Holds _ mine health s' s1 sound') in
      rw valid (rw valid' (cached-Holds kept _ health _ s1 held))
