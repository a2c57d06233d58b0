-- ===== src/LogBuffer.antt =====
-- src/logbuffer.h and src/logbuffer.cpp: the bounded store of log messages. Each call holds the mutex, so
-- calls happen one after the other.
use p2000t_cartridge_studio.Bytes.{Bytes}
use p2000t_cartridge_studio.Base.{
  ℕ, zero, suc, ◌+◌, ◌-◌, ◌*◌, ◌≤◌, ◌<◌, ◌≡◌, refl, sym, ap, subst, ◌∙◌, ◌⊎◌, inl, inr, List, [],
  ◌∷◌, ◌++◌, append-nil, append_assoc, arith, ltb, if◌then◌else◌, Bool-cases, ltb→lt, length, drop,
  length-append, length-drop,
}

abbrev pub max_messages : ℕ
max_messages = 5000

abbrev pub trim_messages : ℕ
trim_messages = 1000

unfoldable pub log_append : Bytes → List Bytes → List Bytes
log_append message messages =
    let appended = messages ++ message ∷ [] in
    if ltb max_messages (length appended) then drop trim_messages appended else appended

-- What snapshot returns after all of these were appended to `messages`.
unfoldable pub log_all : List Bytes → List Bytes → List Bytes
unfolding log_append
log_all [] messages = messages
log_all (m ∷ ms) messages = log_all ms (log_append m messages)

-- `kept` is what is left of `seen` after `trims` trims.
record Kept (seen kept : List Bytes) (trims : ℕ) : Type 0 where
  pub is_rest : kept ≡ drop (trims * trim_messages) seen
  pub in_range : trims * trim_messages ≤ length seen
  pub few : length kept ≤ max_messages
  pub enough : trims ≡ 0 ⊎ max_messages - trim_messages < length kept

drop-append :
    {A : Type 0} (n : ℕ) (xs ys : List A) → n ≤ length xs → drop n (xs ++ ys) ≡ drop n xs ++ ys
drop-append zero xs ys h = refl
drop-append (suc n) [] ys h = absurd (omega arith)
drop-append (suc n) (x ∷ xs) ys h = drop-append n xs ys (omega arith)

drop_nil : {A : Type 0} (n : ℕ) → drop {A = A} n [] ≡ []
drop_nil zero = refl
drop_nil (suc n) = refl

drop-drop : {A : Type 0} (n m : ℕ) (xs : List A) → drop n (drop m xs) ≡ drop (m + n) xs
drop-drop n zero xs = let e : n ≡ 0 + n = omega arith in ap (λ (k : ℕ). drop k xs) e
drop-drop n (suc m) [] = drop_nil n ∙ sym (drop_nil (suc m + n))
drop-drop n (suc m) (x ∷ xs) =
    let e : suc (m + n) ≡ suc m + n = omega arith in
    drop-drop n m xs ∙ ap (λ (k : ℕ). drop k (x ∷ xs)) e

log_append-Kept :
    (message : Bytes) (seen kept : List Bytes) (trims : ℕ)
    → Kept seen kept trims
    → (trims' : ℕ) × Kept (seen ++ message ∷ []) (log_append message kept) trims'
unfolding log_append
log_append-Kept message seen kept trims h =
    let measured : length kept ≡ length seen - trims * trim_messages =
      ap (λ (x : List Bytes). length x) h.is_rest ∙ length-drop (trims * trim_messages) seen in
    let one : length (message ∷ []) ≡ 1 = refl in
    let rest : kept ++ message ∷ [] ≡ drop (trims * trim_messages) (seen ++ message ∷ []) =
      ap (λ (x : List Bytes). x ++ message ∷ []) h.is_rest
      ∙ sym (drop-append (trims * trim_messages) seen (message ∷ []) h.in_range) in
    elim (Bool-cases (ltb max_messages (length (kept ++ message ∷ [])))) [
      | inl long ↦
          let e : trims * trim_messages + trim_messages ≡ suc trims * trim_messages = omega arith in
          (
            suc trims,
            rw long (record {
              is_rest =
                  ap (drop trim_messages) rest
                  ∙ drop-drop trim_messages (trims * trim_messages) (seen ++ message ∷ [])
                  ∙ ap (λ (k : ℕ). drop k (seen ++ message ∷ [])) e;
              in_range = omega (
                arith,
                h.in_range,
                measured,
                length-append seen (message ∷ []),
                length-append kept (message ∷ []),
                ltb→lt max_messages (length (kept ++ message ∷ [])) long,
              );
              few = omega (
                arith,
                h.few,
                length-append kept (message ∷ []),
                length-drop trim_messages (kept ++ message ∷ []),
                one,
              );
              enough = inr (
                  omega (
                    arith,
                    length-append kept (message ∷ []),
                    length-drop trim_messages (kept ++ message ∷ []),
                    ltb→lt max_messages (length (kept ++ message ∷ [])) long,
                  ));
            }),
          )
      | inr short ↦ (
        trims,
        rw short (record {
          is_rest = rest;
          in_range = omega (arith, h.in_range, length-append seen (message ∷ []));
          few = ground (arith, short);
          enough = grown h.enough;
        }),
      )
    ]
  where
    grown :
        (trims ≡ 0) ⊎ (max_messages - trim_messages < length kept)
        → (trims ≡ 0) ⊎ (max_messages - trim_messages < length (kept ++ message ∷ []))
    grown (inl none_yet) = inl none_yet
    grown (inr many) = inr (omega (arith, length-append kept (message ∷ [])))

start-Kept : Kept [] [] 0
start-Kept = record { is_rest = refl; in_range = omega arith; few = omega arith; enough = inl refl }

log_all-Kept :
    (messages seen kept : List Bytes) (trims : ℕ)
    → Kept seen kept trims
    → (trims' : ℕ) × Kept (seen ++ messages) (log_all messages kept) trims'
unfolding log_all
log_all-Kept [] seen kept trims h =
    (trims, subst (λ (x : List Bytes). Kept x kept trims) (sym (append-nil seen)) h)
log_all-Kept (m ∷ messages) seen kept trims h =
    let (once, k) = log_append-Kept m seen kept trims h in
    let (after, l) = log_all-Kept messages (seen ++ m ∷ []) (log_append m kept) once k in
    (
      after,
      subst (λ (x : List Bytes). Kept x (log_all messages (log_append m kept)) after)
          (append_assoc seen (m ∷ []) messages) l,
    )

-- A snapshot after any messages holds them in order without some multiple of 1000 oldest ones,
-- never more than 5000, and more than 4000 once any were dropped.
pub log_all-recent :
    (messages : List Bytes)
    → (trims : ℕ) × (log_all messages [] ≡ drop (trims * trim_messages) messages)
      × (length (log_all messages []) ≤ max_messages)
      × ((trims ≡ 0) ⊎ (max_messages - trim_messages < length (log_all messages [])))
log_all-recent messages =
    let (trims, k) = log_all-Kept messages [] [] 0 start-Kept in (trims, k.is_rest, k.few, k.enough)
