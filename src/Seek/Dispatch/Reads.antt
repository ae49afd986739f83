-- ===== src/Seek/Dispatch/Reads.antt =====
-- A whole `Read::read` of seek/src/macos.rs, from the calls of its callback.
use kiruna.Base.{
  ℕ, zero, suc, ◌==◌, if◌then◌else◌, concat, append_assoc, append-nil, List, [], ◌∷◌, ◌++◌, map,
  true, false, Option, none, some, Result, ok, err, returns, ◌≡◌, refl, sym, ap, ◌∙◌, arith, ne→==,
  ◌^◌, ◌<◌, ltb,
}
use kiruna.Base.Priority.{Priority, user_waiting, testing}
use kiruna.Seek.{environment, callback, complete}
use kiruna.Seek.Laws.{holding}
use kiruna.Seek.Dispatch.{Dispatch, Call, Error, dispatch_error, Read, feed, queue, to_offset, read}

-- A call with a part of the data, which is not the last.
abbrev pub part : List ℕ → Call
part bytes = (false, bytes, 0)

-- What a read is to give after the parts and a last call.
abbrev pub answer : List (List ℕ) → Call → Option (Result (List ℕ) Error)
answer cs (done, bytes, code) =
    if code == 0
    then (if done then some (ok (concat cs ++ bytes)) else none)
    else some (err (dispatch_error code))

feed-parts :
    (cs : List (List ℕ)) (last : Call) (bytes : List ℕ)
    → feed (map part cs ++ (last ∷ [])) (holding bytes)
      ≡ feed (last ∷ []) (holding (bytes ++ concat cs))
unfolding feed callback
feed-parts [] last bytes = ap (λ b. feed (last ∷ []) (holding b)) (sym (append-nil bytes))
feed-parts (c ∷ cs) last bytes =
    feed-parts cs last (bytes ++ c)
    ∙ ap (λ b. feed (last ∷ []) (holding b)) (append_assoc bytes c (concat cs))

-- What the last call sends.
abbrev last_sent : List ℕ → Call → Option (Result (List ℕ) ℕ)
last_sent before (done, bytes, code) =
    if code == 0 then (if done then some (ok (before ++ bytes)) else none) else some (err code)

feed-last :
    (last : Call) (before : List ℕ)
    → feed (last ∷ []) (holding before) ≡ returns (last_sent before last)
unfolding feed callback complete
feed-last (true, bytes, zero) before = refl
feed-last (false, bytes, zero) before = refl
feed-last (done, bytes, suc code) before = rw (ne→== (suc code) 0 (λ z. omega (arith, z))) refl

queue-some :
    {File Io Queue : Type 0} (d : Dispatch File Io Queue) (p : Priority) (q : Queue)
    → d.global ≡ some q
    → queue d p ≡ returns q
unfolding queue
queue-some d user_waiting q g = rw g refl
queue-some d testing q g = rw g refl

-- A read at any priority, from an offset below 2^63, gives the parts that dispatch called it with
-- and the data of the last call, joined in their order, where that call is done; an error of the
-- last call is the error of the read, whether the call is done or not; and the read is pending where
-- dispatch has called with parts only. It does not panic.
pub read-joins :
    {File Io Queue : Type 0} (d : Dispatch File Io Queue) (r : Read File Io) (offset size : ℕ)
    (q : Queue) (cs : List (List ℕ)) (last : Call)
    → d.global ≡ some q
    → offset < 2 ^ 63
    → d.io_read r.io offset size q ≡ map part cs ++ (last ∷ [])
    → read d offset size r ≡ returns (answer cs last)
unfolding read environment to_offset
read-joins d r offset size q cs (done, bytes, code) g near calls =
    let starts : ltb offset (2 ^ 63) ≡ true = ground arith in
    let fed : feed (map part cs ++ ((done, bytes, code) ∷ [])) (holding [])
        ≡ returns (last_sent (concat cs) (done, bytes, code)) =
      feed-parts cs (done, bytes, code) [] ∙ feed-last (done, bytes, code) (concat cs) in
    rw (queue-some d r.priority q g, starts, calls, fed) (ground arith)
