-- ===== src/Tracer/Stream.antt =====
-- The bytes that a side of the content modal has, whatever comes in and in whatever order.
use nifi_lens.Base.{
  ℕ, zero, suc, ◌+◌, ◌≤◌, ◌≡◌, refl, sym, ap, ◌∙◌, subst, Bool, true, false, Option, some, List, [],
  ◌∷◌, ◌++◌, append_assoc, length, take, drop, length-append, length-drop, drop-append, ltb, ◌==◌,
  ◌||◌, if-keeps, Bool-cases, inl, inr, Option-cases, arith,
}
use nifi_lens.Base.Text.{Text}
use nifi_lens.Tracer.{
  TracerCeilingConfig, SideBuffer, cap_of, extend, truncate, enforce, finish, decode, receive,
  apply_first_chunk_and_resolve_ceiling,
}

module _ {ℓ} {A : Type ℓ} where
  take-drop : (n : ℕ) (xs : List A) → take n xs ++ drop n xs ≡ xs
  take-drop zero xs = refl
  take-drop (suc n) [] = refl
  take-drop (suc n) (x ∷ xs) = ap (◌∷◌ x) (take-drop n xs)

  length-take : (n : ℕ) (xs : List A) → length (take n xs) ≤ n
  length-take zero xs = omega arith
  length-take (suc n) [] = omega arith
  length-take (suc n) (x ∷ xs) = omega (arith, length-take n xs)

  none_left : (xs : List A) → length xs ≤ 0 → xs ≡ []
  none_left [] h = refl
  none_left (x ∷ xs) h = absurd (omega arith)

  drop_nil : (n : ℕ) (xs : List A) → xs ≡ [] → drop n xs ≡ []
  drop_nil zero xs e = e
  drop_nil (suc n) [] e = refl
  drop_nil (suc n) (x ∷ xs) e = absurd (ground arith)

-- What a side holds is a first part of the content; it is all of it, where the side is complete (or
-- becomes so with `eof`) and no ceiling was hit.
pub record IsPart (content : List ℕ) (eof : Bool) (b : SideBuffer) : Type 0 where
  pub rest : List ℕ
  pub split : content ≡ b.loaded ++ rest
  pub done : (b.fully_loaded || eof) ≡ true → b.ceiling_hit ≡ false → rest ≡ []

-- The resolved ceiling is kept.
abbrev pub IsCapped : SideBuffer → Type 0
IsCapped b = (c : ℕ) → b.effective_ceiling ≡ some (some c) → length b.loaded ≤ c

-- `bytes` is what a server with this content sends from `offset` on, at most `n` bytes of it, and
-- says that the content ends with them only if it does.
pub record IsReply (content : List ℕ) (offset n : ℕ) (bytes : List ℕ) (eof : Bool) : Type 0 where
  pub slice : bytes ≡ take n (drop offset content)
  pub last : eof ≡ true → length content ≤ offset + n

extend-IsPart :
    (content bytes : List ℕ) (n : ℕ) (eof : Bool) (b : SideBuffer)
    → IsReply content (length b.loaded) n bytes eof
    → IsPart content false b
    → IsPart content eof (extend bytes b)
unfolding extend
extend-IsPart content bytes n eof b r p =
    let left : drop (length b.loaded) content ≡ p.rest =
      ap (drop (length b.loaded)) p.split ∙ drop-append b.loaded p.rest in
    let sent : bytes ≡ take n p.rest = r.slice ∙ ap (take n) left in
    record {
      rest = drop n p.rest;
      split =
          p.split
          ∙ ap (λ xs. b.loaded ++ xs) (sym (take-drop n p.rest))
          ∙ sym (append_assoc b.loaded (take n p.rest) (drop n p.rest))
          ∙ ap (λ xs. (b.loaded ++ xs) ++ drop n p.rest) (sym sent);
      done = λ e h. elim (Bool-cases b.fully_loaded) [
        | inl f ↦ drop_nil n p.rest (p.done (ground arith) h)
        | inr f ↦
            let ends : eof ≡ true = ground arith in
            let size = ap length p.split ∙ length-append b.loaded p.rest in
            none_left (drop n p.rest) (omega (arith, length-drop n p.rest, r.last ends, size))
      ];
    }

truncate-IsPart :
    (content : List ℕ) (c : ℕ) (eof : Bool) (b : SideBuffer)
    → IsPart content eof b
    → IsPart content eof (truncate c b)
unfolding truncate
truncate-IsPart content c eof b p =
    if-keeps (IsPart content eof) (ltb c (length b.loaded))
      (record {
        rest = drop c b.loaded ++ p.rest;
        split =
            p.split
            ∙ ap (λ xs. xs ++ p.rest) (sym (take-drop c b.loaded))
            ∙ append_assoc (take c b.loaded) (drop c b.loaded) p.rest;
        done = λ e h. absurd (ground arith);
      })
      (if-keeps (IsPart content eof) (length b.loaded == c)
        (record { rest = p.rest; split = p.split; done = λ e h. absurd (ground arith) }) p)

truncate-length : (c : ℕ) (b : SideBuffer) → length (truncate c b).loaded ≤ c
unfolding truncate
truncate-length c b = grind (arith, length-take c b.loaded)

-- The three fields that tell a part of the content.
same-IsPart :
    (content : List ℕ) (eof : Bool) (b u : SideBuffer)
    → (u.loaded ≡ b.loaded) × (u.fully_loaded ≡ b.fully_loaded) × (u.ceiling_hit ≡ b.ceiling_hit)
    → IsPart content eof b
    → IsPart content eof u
same-IsPart content eof b u f p = record {
  rest = p.rest;
  split = p.split ∙ ap (λ xs. xs ++ p.rest) (sym f.0);
  done = λ e h. p.done (ap (λ full. full || eof) (sym f.1) ∙ e) (sym f.2 ∙ h);
}

resolve-frame :
    (bytes : List ℕ) (cfg : TracerCeilingConfig) (b : SideBuffer)
    → let u = apply_first_chunk_and_resolve_ceiling cfg bytes b in
      (u.loaded ≡ b.loaded) × (u.fully_loaded ≡ b.fully_loaded) × (u.ceiling_hit ≡ b.ceiling_hit)
unfolding apply_first_chunk_and_resolve_ceiling
resolve-frame bytes cfg b = ground arith

enforce-IsPart :
    (content : List ℕ) (eof : Bool) (cfg : TracerCeilingConfig) (b : SideBuffer)
    → IsPart content eof b
    → IsPart content eof (enforce cfg b)
unfolding enforce
enforce-IsPart content eof cfg b p = elim (Option-cases (cap_of cfg b)) [
  | inl e ↦ rw (enforce, e) p
  | inr (c, e) ↦ rw (enforce, e) (truncate-IsPart content c eof b p)
]

truncate-ceiling : (c : ℕ) (b : SideBuffer) → (truncate c b).effective_ceiling ≡ b.effective_ceiling
unfolding truncate
truncate-ceiling c b = ground arith

enforce-IsCapped : (cfg : TracerCeilingConfig) (b : SideBuffer) → IsCapped (enforce cfg b)
unfolding enforce cap_of
enforce-IsCapped cfg b c h = elim (Option-cases (cap_of cfg b)) [
  | inl e ↦ absurd (grind (arith, e, h))
  | inr (d, e) ↦
      let same : d ≡ c = grind (arith, e, h, truncate-ceiling d b) in
      grind (arith, e, same, truncate-length d b)
]

module _ (from_utf8 : List ℕ → Option Text) where
  decode-frame :
      (b : SideBuffer)
      → ((decode from_utf8 b).loaded ≡ b.loaded)
        × ((decode from_utf8 b).fully_loaded ≡ b.fully_loaded)
        × ((decode from_utf8 b).ceiling_hit ≡ b.ceiling_hit)
        × ((decode from_utf8 b).effective_ceiling ≡ b.effective_ceiling)
  unfolding decode
  decode-frame b = ground arith

finish-frame :
    (eof : Bool) (b : SideBuffer)
    → ((finish eof b).loaded ≡ b.loaded)
      × ((finish eof b).fully_loaded ≡ (b.fully_loaded || eof))
      × ((finish eof b).ceiling_hit ≡ b.ceiling_hit)
      × ((finish eof b).effective_ceiling ≡ b.effective_ceiling)
unfolding finish
finish-frame eof b = ground arith

finish-IsPart :
    (content : List ℕ) (eof : Bool) (b : SideBuffer)
    → IsPart content eof b
    → IsPart content false (finish eof b)
finish-IsPart content eof b p =
    let f = finish-frame eof b in
    record {
      rest = p.rest;
      split = p.split ∙ ap (λ xs. xs ++ p.rest) (sym f.0);
      done = λ e h. p.done (ground (arith, f.1)) (sym f.2 ∙ h);
    }

-- A first part of the content within the ceiling: all of it, where the side says it is complete and
-- no ceiling was hit.
pub record IsStreamed (content : List ℕ) (b : SideBuffer) : Type 0 where
  pub part : IsPart content false b
  pub capped : IsCapped b

pub receive-IsStreamed :
    (from_utf8 : List ℕ → Option Text) (cfg : TracerCeilingConfig) (content bytes : List ℕ) (n : ℕ)
    (eof : Bool) (b : SideBuffer)
    → IsReply content (length b.loaded) n bytes eof
    → IsStreamed content b
    → IsStreamed content (receive from_utf8 cfg bytes eof b)
unfolding receive
receive-IsStreamed from_utf8 cfg content bytes n eof b r s =
    let longer = extend bytes b in
    let resolved = apply_first_chunk_and_resolve_ceiling cfg bytes longer in
    let within = enforce cfg resolved in
    let read = decode from_utf8 within in
    let f = decode-frame from_utf8 within in
    let g = finish-frame eof read in
    let part = enforce-IsPart content eof cfg resolved (
      same-IsPart content eof longer resolved (resolve-frame bytes cfg longer)
        (extend-IsPart content bytes n eof b r s.part)) in
    record {
      part =
          finish-IsPart content eof read (same-IsPart content eof within read (f.0, f.1, f.2) part);
      capped = λ c e.
          let room = enforce-IsCapped cfg resolved c (sym (g.3 ∙ f.3) ∙ e) in
          subst (λ xs. length xs ≤ c) (sym (g.0 ∙ f.0)) room;
    }
