-- ===== src/Cluster/Implements.antt =====
-- The cluster is a store as the application server relies on it.
use simple_twitter.Common.{
  Bool, Outcome, Returns, Returns-map, Returns-result, ℕ, ◌≡◌, ap, ◌∙◌, true, false, Option, List,
}
use simple_twitter.Common.Order.{Bytes, bytes_order}
use simple_twitter.StorageServer.State.{Env}
use simple_twitter.StorageServer.Service.{
  get_request, get_list_request, put_request, append_request, remove_request, delete_request,
  perform_own, Request,
}
use simple_twitter.StorageServer.Service.Refines.{IsFair}
use simple_twitter.Libstore.State.{LibEnv}
use simple_twitter.Libstore.Requests
use simple_twitter.Libstore.Requests.{
  Call, get_call, get_list_call, put_call, append_call, remove_call, delete_call, query_of,
}
use simple_twitter.Libstore.Writes
use simple_twitter.Libstore.Writes.{put_result, delete_result, append_result, remove_result}
use simple_twitter.Libstore.Answers.{list_result}
use simple_twitter.Libstore.Values.{value_result}
use simple_twitter.StwServer.Store.{StoreOps, value_of, IsStore}
use simple_twitter.Cluster.{Cluster, as_status, as_get, as_get_list, value_or_error, run_method}
use simple_twitter.Cluster.Asks.{
  get-Asks, get_list-Asks, put-Asks, delete-Asks, append_to_list-Asks, remove_from_list-Asks,
}
use simple_twitter.Cluster.Running.{IsRunning, Ran, contents_of, run_method-Runs}
use simple_twitter.Cluster.Values.{
  is_ok, get_value, list_value, deleted_value, appended_value, removed_value, appended_contents,
  removed_contents, deleted_contents,
}

-- A cluster that runs.
abbrev pub Running : Type 0
Running = (c : Cluster) × IsRunning c

-- What a run that returns gives, with the cluster after it.
unfoldable outcome :
    {A : Type 0} (c : Cluster) (request : Request) (result : Option A)
    (m : Outcome (Option A × Cluster))
    → Returns m (Ran c request result)
    → Option A × Running
outcome c request result m ran =
    let (out, d, h) = Returns-result m _ ran in (out.0, (out.1, h.running))

outcome-Ran :
    {A : Type 0} (c : Cluster) (request : Request) (result : Option A)
    (m : Outcome (Option A × Cluster)) (ran : Returns m (Ran c request result))
    → Ran c request result
        ((outcome c request result m ran).0, (outcome c request result m ran).1.0)
unfolding outcome
outcome-Ran c request result m ran = (Returns-result m _ ran).2

-- Whether the call reported no error.
abbrev acknowledged : Option (Unit {0}) × Running → Bool × Running
acknowledged (answer, s) = (is_ok answer, s)

with_result :
    {A : Type 0} (c : Cluster) (request : Request) (result result' : Option A)
    (m : Outcome (Option A × Cluster))
    → result ≡ result'
    → Returns m (Ran c request result)
    → Returns m (Ran c request result')
with_result c request result result' m e ran =
    Returns-map m (λ out h. record { gives = h.gives ∙ e; running = h.running; holds = h.holds })
      ran

-- The clocks of each operation, and the laws of the outside.
module _ (lib_env : ℕ → LibEnv) (env : ℕ → Env)
    (dials : (n : ℕ) (a : Bytes) → (lib_env n).dials a ≡ true)
    (fair : (n : ℕ) → IsFair (env n)) where
  ring_get : Bytes → Cluster → Outcome (Option Bytes × Cluster)
  ring_get key c = run_method (env c.count) key as_get (Requests.get (lib_env c.count) key) c

  ring_get-Ran :
      (key : Bytes) (c : Cluster)
      → IsRunning c
      → Returns
          (ring_get key c)
          (Ran c (get_request (query_of key false c.libstore)) (value_of (contents_of c key)))
  unfolding ring_get
  ring_get-Ran key c run =
      let args = query_of key false c.libstore in
      with_result c _ _ _ _ (get_value key args (contents_of c key)) (
        run_method-Runs (env c.count) c (get_call args) as_get (Requests.get (lib_env c.count) key)
          (value_result key) (fair c.count) run run.address
          (get-Asks (lib_env c.count) (dials c.count) key c.libstore run.plain))

  ring_get_list : Bytes → Cluster → Outcome (Option (List Bytes) × Cluster)
  ring_get_list key c =
      run_method (env c.count) key as_get_list (Requests.get_list (lib_env c.count) key) c

  ring_get_list-Ran :
      (key : Bytes) (c : Cluster)
      → IsRunning c
      → Returns
          (ring_get_list key c)
          (Ran c (get_list_request (query_of key false c.libstore)) (contents_of c key))
  unfolding ring_get_list
  ring_get_list-Ran key c run =
      let args = query_of key false c.libstore in
      with_result c _ _ _ _ (list_value key args (contents_of c key)) (
        run_method-Runs (env c.count) c (get_list_call args) as_get_list
          (Requests.get_list (lib_env c.count) key) (list_result key) (fair c.count) run run.address
          (get_list-Asks (lib_env c.count) (dials c.count) key c.libstore run.plain))

  ring_put : Bytes → Bytes → Cluster → Outcome (Option (Unit {0}) × Cluster)
  ring_put key value c =
      run_method (env c.count) key as_status (Writes.put (lib_env c.count) key value) c

  ring_put-Ran :
      (key value : Bytes) (c : Cluster)
      → IsRunning c
      → let request = put_request (record { key = key; value = value }) in
        Returns (ring_put key value c) (
          Ran c request
            (value_or_error (put_result (as_status (perform_own request (contents_of c)).1))))
  unfolding ring_put
  ring_put-Ran key value c run =
      run_method-Runs (env c.count) c (put_call (record { key = key; value = value })) as_status
        (Writes.put (lib_env c.count) key value) (put_result) (fair c.count) run tt
        (λ answer. put-Asks (lib_env c.count) (dials c.count) answer key value c.libstore run.plain)

  ring_append_to_list : Bytes → Bytes → Cluster → Outcome (Option (Unit {0}) × Cluster)
  ring_append_to_list key value c =
      run_method (env c.count) key as_status (Writes.append_to_list (lib_env c.count) key value) c

  ring_append_to_list-Ran :
      (key value : Bytes) (c : Cluster)
      → IsRunning c
      → let request = append_request (record { key = key; value = value }) in
        Returns (ring_append_to_list key value c) (
          Ran c request (
            value_or_error
              (append_result key value (as_status (perform_own request (contents_of c)).1))))
  unfolding ring_append_to_list
  ring_append_to_list-Ran key value c run =
      run_method-Runs (env c.count) c (append_call (record { key = key; value = value })) as_status
        (Writes.append_to_list (lib_env c.count) key value) (append_result key value) (fair c.count)
        run tt
        (λ answer.
          append_to_list-Asks (lib_env c.count) (dials c.count) answer key value c.libstore
            run.plain)

  ring_remove_from_list : Bytes → Bytes → Cluster → Outcome (Option (Unit {0}) × Cluster)
  ring_remove_from_list key value c =
      run_method (env c.count) key as_status (Writes.remove_from_list (lib_env c.count) key value) c

  ring_remove_from_list-Ran :
      (key value : Bytes) (c : Cluster)
      → IsRunning c
      → let request = remove_request (record { key = key; value = value }) in
        Returns (ring_remove_from_list key value c) (
          Ran c request (
            value_or_error
              (remove_result key value (as_status (perform_own request (contents_of c)).1))))
  unfolding ring_remove_from_list
  ring_remove_from_list-Ran key value c run =
      run_method-Runs (env c.count) c (remove_call (record { key = key; value = value })) as_status
        (Writes.remove_from_list (lib_env c.count) key value) (remove_result key value)
        (fair c.count) run tt
        (λ answer.
          remove_from_list-Asks (lib_env c.count) (dials c.count) answer key value c.libstore
            run.plain)

  ring_delete : Bytes → Cluster → Outcome (Option (Unit {0}) × Cluster)
  ring_delete key c = run_method (env c.count) key as_status (Writes.delete (lib_env c.count) key) c

  ring_delete-Ran :
      (key : Bytes) (c : Cluster)
      → IsRunning c
      → Returns (ring_delete key c) (
          Ran c (delete_request key) (
            value_or_error
              (delete_result key (as_status (perform_own (delete_request key) (contents_of c)).1))))
  unfolding ring_delete
  ring_delete-Ran key c run =
      run_method-Runs (env c.count) c (delete_call key) as_status
        (Writes.delete (lib_env c.count) key) (delete_result key) (fair c.count) run tt
        (λ answer. delete-Asks (lib_env c.count) (dials c.count) answer key c.libstore run.plain)

  pub ring_ops : StoreOps Running
  ring_ops = record {
    get = λ key (c, run). outcome c _ _ (ring_get key c) (ring_get-Ran key c run);
    put = λ key v (c, run).
        acknowledged (outcome c _ _ (ring_put key v c) (ring_put-Ran key v c run));
    delete = λ key (c, run).
        acknowledged (outcome c _ _ (ring_delete key c) (ring_delete-Ran key c run));
    get_list = λ key (c, run). outcome c _ _ (ring_get_list key c) (ring_get_list-Ran key c run);
    append_to_list = λ key v (c, run).
        acknowledged
          (outcome c _ _ (ring_append_to_list key v c) (ring_append_to_list-Ran key v c run));
    remove_from_list = λ key v (c, run).
        acknowledged
          (outcome c _ _ (ring_remove_from_list key v c) (ring_remove_from_list-Ran key v c run));
  }

  -- The operations of a libstore in mode Never on a ring of well-formed servers that have divided the
  -- keys, where all hosts can be reached and the clock fits in 64 bits, are those of one store: what
  -- the application server relies on holds for what all servers together hold.
  pub ring_ops-IsStore : IsStore ring_ops (λ s. contents_of s.0)
  unfolding ring_ops put_result
  ring_ops-IsStore = record {
    gets = λ key (c, run). (outcome-Ran c _ _ (ring_get key c) (ring_get-Ran key c run)).gives;
    get_keeps = λ key (c, run). (outcome-Ran c _ _ (ring_get key c) (ring_get-Ran key c run)).holds;
    put_works = λ key v (c, run).
        ap is_ok (outcome-Ran c _ _ (ring_put key v c) (ring_put-Ran key v c run)).gives;
    puts = λ key v (c, run) k.
        (outcome-Ran c _ _ (ring_put key v c) (ring_put-Ran key v c run)).holds k;
    delete_reports = λ key (c, run).
        ap is_ok (outcome-Ran c _ _ (ring_delete key c) (ring_delete-Ran key c run)).gives
        ∙ deleted_value key (contents_of c key);
    deletes = λ key (c, run) k.
        (outcome-Ran c _ _ (ring_delete key c) (ring_delete-Ran key c run)).holds k
        ∙ deleted_contents key (contents_of c) k;
    gets_list = λ key (c, run).
        (outcome-Ran c _ _ (ring_get_list key c) (ring_get_list-Ran key c run)).gives;
    get_list_keeps = λ key (c, run).
        (outcome-Ran c _ _ (ring_get_list key c) (ring_get_list-Ran key c run)).holds;
    append_reports = λ key v (c, run).
        ap is_ok
          (outcome-Ran c _ _ (ring_append_to_list key v c)
            (ring_append_to_list-Ran key v c run)).gives
        ∙ appended_value key v (contents_of c key);
    appends = λ key v (c, run) k.
        (outcome-Ran c _ _ (ring_append_to_list key v c)
            (ring_append_to_list-Ran key v c run)).holds
          k
        ∙ appended_contents key v (contents_of c) k;
    remove_reports = λ key v (c, run).
        ap is_ok
          (outcome-Ran c _ _ (ring_remove_from_list key v c)
            (ring_remove_from_list-Ran key v c run)).gives
        ∙ removed_value key v (contents_of c key);
    removes = λ key v (c, run) k.
        (outcome-Ran c _ _ (ring_remove_from_list key v c)
            (ring_remove_from_list-Ran key v c run)).holds
          k
        ∙ removed_contents key v (contents_of c) k;
  }
