-- ===== src/Http/Program/Tests.antt =====
-- The two clients against a host that answers in three pieces.
use smoll.Base.{ℕ, ◌≡◌, refl, List, [], ◌∷◌, some, Bytes, codes, arith, same_text}
use smoll.Async.Net.{success}
use smoll.Http.Arguments.{method_of}
use smoll.Http.Exchange.{finished}
use smoll.Http.Program.{got, program, custom_program}
use smoll.Http.Program.Agreement.{Agree, IsSameExit, programs-Agree}
use smoll.Http.Program.Response.{IsServer, program-responds}
use smoll.Http.Fixtures.{
  keeper, keeper-IsIncremental, in_pieces, verb_get, verbs, verbs-IsPlain, ids, std, host,
}

abbrev get_arguments : List Bytes
get_arguments = codes "get" ∷ codes "127.0.0.1" ∷ codes "80" ∷ codes "/" ∷ []

programs-Agree_example :
    Agree
      (IsSameExit host keeper [] keeper-IsIncremental)
      (custom_program host verbs ids std get_arguments)
      (program host verbs keeper [] get_arguments)
programs-Agree_example =
    programs-Agree host keeper [] keeper-IsIncremental verbs ids std (codes "get")
      (codes "127.0.0.1") (codes "80") (codes "/") [] (codes "127.0.0.1")
      (record { get_name = refl; post_name = refl }) (ground arith)
      (record { is_address = refl; is_four = refl; is_canonical = refl })

host-IsServer : IsServer host [] (λ message. (codes "HE", in_pieces))
host-IsServer = record {
  after = λ text. text;
  behind = λ text. text;
  takes = λ text. refl;
  heads = λ text. refl;
  sends = λ text. refl;
}

program-responds_example :
    (n : ℕ) × (program host verbs keeper [] get_arguments
      ≡ got (record {
        code = 0;
        response = some (record { parser = codes "HEADBO"; complaints = n; ending = finished });
      }))
unfolding method_of same_text
program-responds_example =
    program-responds host verbs keeper [] (codes "get") (codes "127.0.0.1") (codes "80") (codes "/")
      [] verb_get (codes "127.0.0.1") (0 ∷ []) [] (λ message. (codes "HE", in_pieces)) (codes "HE")
      ((codes "AD", success) ∷ (codes "BO", success) ∷ []) [] verbs-IsPlain (omega arith)
      (omega arith) (omega arith) refl refl refl refl host-IsServer keeper-IsIncremental refl
      ((λ h. cc), ((λ h. cc), tt))
