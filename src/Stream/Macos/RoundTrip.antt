-- ===== src/Stream/Macos/RoundTrip.antt =====
-- Writes to a stream of stream/src/macos/write.rs, and the read of the whole of it by
-- stream/src/macos/read.rs.
use kiruna.Base.{
  ℕ, suc, List, [], ◌∷◌, ◌++◌, map, concat, append_assoc, append-nil, none, some, ok, err, Outcome,
  returns, panics, ◌>>=◌, ◌≡◌, sym, ap, ◌∙◌,
}
use kiruna.Stream.Macos.{
  Dispatch, Options, into, write_data, write_data-ok, write_static, write_boxed,
}
use kiruna.Stream.Read.{all_loop}
use kiruna.Stream.Read.Whole.{content, reply, all_loop-joins}

joined :
    {y z : List ℕ} (x b : List ℕ) (bs : List (List ℕ))
    → y ≡ x ++ b
    → z ≡ y ++ concat bs
    → z ≡ x ++ concat (b ∷ bs)
joined x b bs one others = others ∙ ap (λ l. l ++ concat bs) one ∙ append_assoc x b (concat bs)

module _ {Queue : Type 0} (d : Dispatch Queue) where
  -- Buffers that are written one after another to one descriptor, static or boxed, where each write
  -- answers `Ok`.
  pub data Writes (fd : ℕ) (options : Options Queue)
      : List (List ℕ) → d.State → d.State → Type 0 where
    finished : {s : d.State} → Writes fd options [] s s
    static :
        {s t u : d.State} {buffer : List ℕ} {buffers : List (List ℕ)}
        → write_static d fd buffer options s ≡ returns (ok tt, t)
        → Writes fd options buffers t u
        → Writes fd options (buffer ∷ buffers) s u
    boxed :
        {s t u : d.State} {buffer : List ℕ} {buffers : List (List ℕ)}
        → write_boxed d fd buffer options s ≡ returns (ok tt, t)
        → Writes fd options buffers t u
        → Writes fd options (buffer ∷ buffers) s u

  -- A write of either kind that answers `Ok`, from the queue of its options.
  sent-adds :
      (fd : ℕ) (buffer : List ℕ) (o : Outcome Queue) (s t : d.State)
      → (o >>= λ q. returns (write_data d fd buffer q s)) ≡ returns (ok tt, t)
      → d.written t fd ≡ d.written s fd ++ buffer
  sent-adds fd buffer (returns q) s t e =
      let same : write_data d fd buffer q s ≡ (ok tt, t) = cc in
      sym (ap (λ r. d.written r.1 fd) same) ∙ write_data-ok d fd buffer q s (ap (λ r. r.0) same)
  sent-adds fd buffer (panics f) s t e = cc

  Writes-written :
      {fd : ℕ} {options : Options Queue} {buffers : List (List ℕ)} {s t : d.State}
      → Writes fd options buffers s t
      → d.written t fd ≡ d.written s fd ++ concat buffers
  unfolding write_static write_boxed
  Writes-written finished = sym (append-nil _)
  Writes-written {fd} {options} (static {s} {t} {buffer} {buffers} e rest) =
      joined (d.written s fd) buffer buffers (sent-adds fd buffer (into d options) s t e)
        (Writes-written rest)
  Writes-written {fd} {options} (boxed {s} {t} {buffer} {buffers} e rest) =
      joined (d.written s fd) buffer buffers (sent-adds fd buffer (into d options) s t e)
        (Writes-written rest)

  -- What is written is read back: after writes that answer `Ok`, to a descriptor that was given nothing
  -- before, a read of the whole stream on macOS, whose chunks the system cuts from what was written
  -- in any way, gives the buffers joined in their order once it meets the end of the stream; an
  -- error in place of the end is the result of the read; without either the read still waits.
  pub Writes-all_loop :
      {fd : ℕ} {options : Options Queue} {buffers : List (List ℕ)} {s t : d.State}
      → Writes fd options buffers s t
      → (cs : List (ℕ × List ℕ)) (code : ℕ) (rest : List (List ℕ × ℕ)) → d.written s fd ≡ []
      → concat (map content cs) ≡ d.written t fd
      → (all_loop (map reply cs ++ (([], 0) ∷ rest)) [] ≡ some (ok (concat buffers)))
        × (all_loop (map reply cs ++ (([], suc code) ∷ rest)) [] ≡ some (err (suc code)))
        × (all_loop (map reply cs) [] ≡ none)
  Writes-all_loop {buffers} w cs code rest fresh cut =
      let (whole, failed, waiting) = all_loop-joins cs code rest in
      let same : concat (map content cs) ≡ concat buffers =
        cut ∙ Writes-written w ∙ ap (λ b. b ++ concat buffers) fresh in
      (whole ∙ ap (λ b. some (ok b)) same, failed, waiting)
