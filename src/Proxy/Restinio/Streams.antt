-- ===== src/Proxy/Restinio/Streams.antt =====
-- proxy_restinio.cpp: what the responses of the gets hold, in any history.
use smoll.Base.{
  ℕ, ◌≡◌, refl, sym, ap, ◌∙◌, List, [], ◌∷◌, ◌++◌, true, false, none, some, get_elem?,
  if◌then◌else◌, ◌==◌, append_assoc, arith,
}
use smoll.Proxy.Restinio.{
  Dht, Effect, respond, begin_chunked, append_chunk, end_chunked, dht_get, dht_put, Server, Event,
  asks_options, asks_info, asks_get, asks_put, finds_value, ends_get, ends_put, on_value,
  on_get_done, on_put_done, step, run,
}
use smoll.Proxy.Restinio.Contents.{value_lines, value_lines-append, streamed}

module _ {H V J N : Type 0} (dht : Dht H V J N) (id : ℕ) where
  -- The value that a callback of the node brings to the request.
  unfoldable pub found_now : Server H V N → Event V N → List V
  found_now s (finds_value k v) = elim (get_elem? s.gets k) [
    | none ↦ []
    | some j ↦ if j == id then v ∷ [] else []
  ]
  found_now s e = []

  unfoldable pub found : Server H V N → List (Event V N) → List V
  unfolding found_now
  found s [] = []
  found s (e ∷ es) = found_now s e ++ found (step dht s e).0 es

  pub streamed-append :
      (xs ys : List (Effect H V))
      → streamed dht id (xs ++ ys) ≡ streamed dht id xs ++ streamed dht id ys
  unfolding streamed
  streamed-append [] ys = refl
  streamed-append (append_chunk j b ∷ es) ys =
      ground
        (arith, streamed-append es ys, append_assoc b (streamed dht id es) (streamed dht id ys))
  streamed-append (respond j r ∷ es) ys = streamed-append es ys
  streamed-append (begin_chunked j r ∷ es) ys = streamed-append es ys
  streamed-append (end_chunked j ∷ es) ys = streamed-append es ys
  streamed-append (dht_get j h ∷ es) ys = streamed-append es ys
  streamed-append (dht_put j h v p ∷ es) ys = streamed-append es ys

  step-streamed :
      (s : Server H V N) (e : Event V N)
      → streamed dht id (step dht s e).1 ≡ value_lines dht (found_now s e)
  unfolding step streamed found_now value_lines on_value on_get_done on_put_done
  step-streamed s (asks_options j) = refl
  step-streamed s (asks_info j current ip) = refl
  step-streamed s (asks_get j hash) = refl
  step-streamed s (asks_put j hash []) = refl
  step-streamed s (asks_put j hash (b ∷ bs)) = ground arith
  step-streamed s (finds_value k v) = ground arith
  step-streamed s (ends_get k) = ground arith
  step-streamed s (ends_put k true) = ground arith
  step-streamed s (ends_put k false) = ground arith

  -- In any history, the response to a request holds the values that the node found for it, each as a
  -- line, in the order in which they were found.
  pub run-streamed :
      (es : List (Event V N)) (s : Server H V N)
      → streamed dht id (run dht s es).1 ≡ value_lines dht (found s es)
  unfolding run found streamed value_lines
  run-streamed [] s = refl
  run-streamed (e ∷ es) s =
      streamed-append (step dht s e).1 (run dht (step dht s e).0 es).1
      ∙ ap (λ l. l ++ streamed dht id (run dht (step dht s e).0 es).1) (step-streamed s e)
      ∙ ap (λ l. value_lines dht (found_now s e) ++ l) (run-streamed es (step dht s e).0)
      ∙ sym (value_lines-append dht (found_now s e) (found (step dht s e).0 es))
