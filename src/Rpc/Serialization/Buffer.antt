-- ===== src/Rpc/Serialization/Buffer.antt =====
-- Writing to a buffer.
use roo_transport.Prelude.{
  ℕ, ◌+◌, ◌-◌, ◌≤◌, ◌≡◌, inl, inr, refl, sym, ap, ◌∙◌, true, false, ◌==◌, ==_iff, min, Bool-cases,
  List, [], ◌∷◌, ◌++◌, length, take, drop, replicate, length-append, length-replicate, take_all,
  drop_all, take-append_le, drop-append_ge, append-nil, append_assoc, arith,
}
use roo_transport.Rpc.{RpcStatus}
use roo_transport.Rpc.Serialization.{DynamicSerialized, padded, overwrite, write}

dyn_eq :
    (s : RpcStatus) (x y : List ℕ) (m n : ℕ)
    → x ≡ y
    → m ≡ n
    → ◌≡◌ {A = DynamicSerialized}
        (record { status = s; bytes = x; pos = m })
        (record { status = s; bytes = y; pos = n })
dyn_eq s x y m n p q = λ i. record { status = s; bytes = p i; pos = q i }

pub length-padded : (xs : List ℕ) (n : ℕ) → length xs ≤ n → length (padded xs n) ≡ n
length-padded xs n h =
    let nil : ℕ = 0 in
    omega (
      arith,
      length-append xs (replicate (n - length xs) nil),
      length-replicate (n - length xs) nil,
    )

pub padded_full : (xs : List ℕ) (n : ℕ) → n ≤ length xs → padded xs n ≡ xs
padded_full xs n h =
    let z : n - length xs ≡ 0 = omega arith in ap (λ k. xs ++ replicate k 0) z ∙ append-nil xs

overwrite_end : (xs ys : List ℕ) (i : ℕ) → i ≡ length xs → ys ≡ [] → overwrite xs i ys ≡ xs
overwrite_end xs ys i at none_left =
    ap (λ zs. take i xs ++ zs ++ drop (i + length zs) xs) none_left
    ∙ ap (λ zs. zs ++ [] ++ drop (i + 0) xs) (take_all i xs (omega arith))
    ∙ ap (λ zs. xs ++ [] ++ zs) (drop_all (i + 0) xs (omega arith))
    ∙ append-nil (xs ++ [])
    ∙ append-nil xs

overwrite_inside :
    (front old back ys : List ℕ)
    → length old ≡ length ys
    → overwrite (front ++ (old ++ back)) (length front) ys ≡ front ++ (ys ++ back)
overwrite_inside front old back ys len =
    let z : length front - length front ≡ 0 = omega arith in
    let over : length front + length ys - length front ≡ length old = omega arith in
    let z' : length old - length old ≡ 0 = omega arith in
    ap (λ zs. zs ++ ys ++ drop (length front + length ys) (front ++ (old ++ back)))
      (take-append_le (length front) front (old ++ back) (omega arith)
        ∙ take_all (length front) front (omega arith))
    ∙ ap (λ zs. front ++ ys ++ zs)
        (drop-append_ge (length front + length ys) front (old ++ back) (omega arith)
          ∙ ap (λ k. drop k (old ++ back)) over
          ∙ drop-append_ge (length old) old back (omega arith)
          ∙ ap (λ k. drop k back) z')
    ∙ append_assoc front ys back

nil_of : (xs : List ℕ) → length xs ≡ 0 → xs ≡ []
nil_of [] e = refl
nil_of (x ∷ xs) e = absurd (omega arith)

-- What a write comes to, if nothing or everything of it lies inside.
written :
    (d : DynamicSerialized) (buf : List ℕ) (over : ℕ)
    → min (length (padded d.bytes d.pos) - d.pos) (length buf) ≡ over
    → length buf - over ≡ 0
    → write d buf ≡ record {
      status = d.status;
      bytes = overwrite (padded d.bytes d.pos) d.pos (take over buf);
      pos = d.pos + over;
    }
unfolding write
written d buf over e left =
    let done : (length buf - over == 0) ≡ true = (==_iff _ 0).1 left in rw (write, e, done) refl

written_more :
    (d : DynamicSerialized) (buf : List ℕ) (over : ℕ)
    → min (length (padded d.bytes d.pos) - d.pos) (length buf) ≡ over
    → (length buf - over == 0) ≡ false
    → write d buf ≡ record {
      status = d.status;
      bytes = overwrite (padded d.bytes d.pos) d.pos (take over buf) ++ drop over buf;
      pos = d.pos + over + (length buf - over);
    }
unfolding write
written_more d buf over e more = rw (write, e, more) refl

-- Behind the end, bytes are appended.
pub write_end :
    (d : DynamicSerialized) (buf : List ℕ)
    → length d.bytes ≤ d.pos
    → write d buf
      ≡ record { status = d.status; bytes = padded d.bytes d.pos ++ buf; pos = d.pos + length buf }
write_end d buf h =
    let base = padded d.bytes d.pos in
    let len = length-padded d.bytes d.pos h in
    let none_over : min (length base - d.pos) (length buf) ≡ 0 = omega (arith, len) in
    let kept = overwrite_end base (take 0 buf) d.pos (sym len) refl in
    elim (Bool-cases (length buf - 0 == 0)) [
      | inl e ↦
          let empty : buf ≡ [] = nil_of buf (omega (arith, (==_iff (length buf - 0) 0).0 e)) in
          written d buf 0 none_over ((==_iff (length buf - 0) 0).0 e)
          ∙ dyn_eq d.status _ _ _ _
              (kept ∙ sym (append-nil base) ∙ ap (λ xs. base ++ xs) (sym empty))
              (omega (arith, (==_iff (length buf - 0) 0).0 e))
      | inr e ↦
          written_more d buf 0 none_over e
          ∙ dyn_eq d.status _ _ _ _ (ap (λ xs. xs ++ buf) kept) (omega arith)
    ]

-- Inside, bytes are replaced.
pub write_inside :
    (d : DynamicSerialized) (front old back buf : List ℕ)
    → d.bytes ≡ front ++ (old ++ back)
    → d.pos ≡ length front
    → length old ≡ length buf
    → write d buf
      ≡ record { status = d.status; bytes = front ++ (buf ++ back); pos = d.pos + length buf }
write_inside d front old back buf e at len =
    let size : length d.bytes ≡ length front + length old + length back =
      ap length e ∙ omega (arith, length-append front (old ++ back), length-append old back) in
    let full = padded_full d.bytes d.pos (omega arith) in
    let all_over : min (length (padded d.bytes d.pos) - d.pos) (length buf) ≡ length buf =
      omega (arith, ap length full, size) in
    written d buf (length buf) all_over (omega arith)
    ∙ dyn_eq d.status _ _ _ _
        (ap (λ xs. overwrite xs d.pos (take (length buf) buf)) (full ∙ e)
          ∙ ap (λ xs. overwrite (front ++ (old ++ back)) d.pos xs)
              (take_all (length buf) buf (omega arith))
          ∙ ap (λ i. overwrite (front ++ (old ++ back)) i buf) at
          ∙ overwrite_inside front old back buf len)
        refl
