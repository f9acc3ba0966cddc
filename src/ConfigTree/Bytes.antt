-- ===== src/ConfigTree/Bytes.antt =====
-- conftree.c: the bytes of a `long` and of a node, in the order of a little-endian machine.
use script_basic.Common.{
  ℕ, zero, suc, ◌+◌, ◌*◌, ◌/◌, ◌%◌, ◌^◌, ◌≤◌, ◌<◌, ◌≡◌, refl, sym, ap, ◌∙◌, List, [], ◌∷◌, ◌++◌,
  length, take, drop, take-append, drop-append, take-drop, length-take, length-drop, drop-drop,
  arith,
}
use script_basic.ConfigTree.{ConfigNode}

unfoldable pub bytes_of : ℕ → ℕ → List ℕ
bytes_of zero w = []
bytes_of (suc k) w = w % 256 ∷ bytes_of k (w / 256)

unfoldable pub word_of : List ℕ → ℕ
word_of [] = 0
word_of (b ∷ bs) = b + 256 * word_of bs

abbrev pub AreBytes : List ℕ → Type 0
AreBytes [] = Unit
AreBytes (b ∷ bs) = (b < 256) × AreBytes bs

-- The number fits in so many bytes.
unfoldable pub Fits : ℕ → ℕ → Type 0
Fits zero w = w ≡ 0
Fits (suc k) w = Fits k (w / 256)

pub word_of-bytes_of : (k w : ℕ) → Fits k w → word_of (bytes_of k w) ≡ w
unfolding bytes_of word_of Fits
word_of-bytes_of zero w h = omega arith
word_of-bytes_of (suc k) w h = omega (arith, word_of-bytes_of k (w / 256) h)

pub bytes_of-word_of : (bs : List ℕ) → AreBytes bs → bytes_of (length bs) (word_of bs) ≡ bs
unfolding bytes_of word_of
bytes_of-word_of [] h = refl
bytes_of-word_of (b ∷ bs) h =
    let low : (b + 256 * word_of bs) % 256 ≡ b = omega arith in
    let high : (b + 256 * word_of bs) / 256 ≡ word_of bs = omega arith in
    rw low (rw high (ap (λ l. b ∷ l) (bytes_of-word_of bs h.1)))

pub length-bytes_of : (k w : ℕ) → length (bytes_of k w) ≡ k
unfolding bytes_of
length-bytes_of zero w = refl
length-bytes_of (suc k) w = ap suc (length-bytes_of k (w / 256))

pub Fits-long : (w : ℕ) → w < 2 ^ 64 → Fits 8 w
unfolding Fits
Fits-long w h = omega arith

-- `sizeof(tConfigNode)` and the node's bytes: three `long` values, the flag, and the padding.
abbrev pub sizeof_node : ℕ
sizeof_node = 32

unfoldable pub node_bytes : ConfigNode → List ℕ
node_bytes n =
    bytes_of 8 n.key
    ++ bytes_of 8 n.next
    ++ bytes_of 8 n.val
    ++ bytes_of 1 n.flag
    ++ bytes_of 7 n.padding

unfoldable pub bytes_node : List ℕ → ConfigNode
bytes_node bs = record {
  key = word_of (take 8 bs);
  next = word_of (take 8 (drop 8 bs));
  val = word_of (take 8 (drop 8 (drop 8 bs)));
  flag = word_of (take 1 (drop 8 (drop 8 (drop 8 bs))));
  padding = word_of (take 7 (drop 1 (drop 8 (drop 8 (drop 8 bs)))));
}

-- The fields of the node are in their ranges.
abbrev pub IsNode : ConfigNode → Type 0
IsNode n = Fits 8 n.key × Fits 8 n.next × Fits 8 n.val × Fits 1 n.flag × Fits 7 n.padding

pub length-node_bytes : (n : ConfigNode) → length (node_bytes n) ≡ sizeof_node
unfolding node_bytes bytes_of
length-node_bytes n = refl

-- The first word of what starts with its bytes, and the rest
pub word_first : (k w : ℕ) (bs : List ℕ) → Fits k w → word_of (take k (bytes_of k w ++ bs)) ≡ w
word_first k w bs h =
    ap word_of (take-append k (bytes_of k w) bs (length-bytes_of k w)) ∙ word_of-bytes_of k w h

pub drop_word : (k w : ℕ) (bs : List ℕ) → drop k (bytes_of k w ++ bs) ≡ bs
drop_word k w bs = drop-append k (bytes_of k w) bs (length-bytes_of k w)

pub bytes_node-node_bytes :
    (n : ConfigNode) (bs : List ℕ) → IsNode n → bytes_node (node_bytes n ++ bs) ≡ n
unfolding bytes_node node_bytes bytes_of
bytes_node-node_bytes n bs (k, x, v, f, p) = rw (word_of-bytes_of 8 n.key k) (
    rw (word_of-bytes_of 8 n.next x) (
      rw (word_of-bytes_of 8 n.val v)
        (rw (word_of-bytes_of 1 n.flag f) (rw (word_of-bytes_of 7 n.padding p) refl))))

pub AreBytes-take : (n : ℕ) (bs : List ℕ) → AreBytes bs → AreBytes (take n bs)
AreBytes-take zero bs h = tt
AreBytes-take (suc n) [] h = tt
AreBytes-take (suc n) (b ∷ bs) h = (h.0, AreBytes-take n bs h.1)

pub AreBytes-drop : (n : ℕ) (bs : List ℕ) → AreBytes bs → AreBytes (drop n bs)
AreBytes-drop zero bs h = h
AreBytes-drop (suc n) [] h = tt
AreBytes-drop (suc n) (b ∷ bs) h = AreBytes-drop n bs h.1

-- The word that was read is written as the same bytes.
pub word_again :
    (k : ℕ) (bs : List ℕ)
    → AreBytes bs
    → k ≤ length bs
    → bytes_of k (word_of (take k bs)) ≡ take k bs
word_again k bs h lt =
    ap (λ j. bytes_of j (word_of (take k bs))) (sym (length-take k bs lt))
    ∙ bytes_of-word_of (take k bs) (AreBytes-take k bs h)

word_append :
    (k : ℕ) (bs rest : List ℕ)
    → AreBytes bs
    → k ≤ length bs
    → rest ≡ drop k bs
    → bytes_of k (word_of (take k bs)) ++ rest ≡ bs
word_append k bs rest h lt e = rw (word_again k bs h lt) (rw e (take-drop k bs))

drop_node : (bs : List ℕ) → drop 7 (drop 1 (drop 8 (drop 8 (drop 8 bs)))) ≡ drop sizeof_node bs
drop_node bs =
    rw (drop-drop 8 8 bs) (rw (drop-drop 8 16 bs) (rw (drop-drop 1 24 bs) (drop-drop 7 25 bs)))

pub node_bytes-bytes_node :
    (bs : List ℕ)
    → AreBytes bs
    → sizeof_node ≤ length bs
    → node_bytes (bytes_node bs) ++ drop sizeof_node bs ≡ bs
unfolding node_bytes bytes_node bytes_of
node_bytes-bytes_node bs h lt =
    let next = drop 8 bs in
    let val = drop 8 next in
    let flag = drop 8 val in
    let padding = drop 1 flag in
    let next_lt : 24 ≤ length next = omega (arith, length-drop 8 bs) in
    let val_lt : 16 ≤ length val = omega (arith, length-drop 8 next) in
    let flag_lt : 8 ≤ length flag = omega (arith, length-drop 8 val) in
    let padding_lt : 7 ≤ length padding = omega (arith, length-drop 1 flag) in
    let next_b = AreBytes-drop 8 bs h in
    let val_b = AreBytes-drop 8 next next_b in
    let flag_b = AreBytes-drop 8 val val_b in
    let padding_b = AreBytes-drop 1 flag flag_b in
    word_append 8 bs _ h (omega (arith, lt)) (
      word_append 8 next _ next_b (omega (arith, next_lt)) (
        word_append 8 val _ val_b (omega (arith, val_lt)) (
          word_append 1 flag _ flag_b (omega (arith, flag_lt))
            (word_append 7 padding _ padding_b padding_lt (sym (drop_node bs))))))
