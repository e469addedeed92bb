-- ===== src/Resource/Download/Thread.antt =====
-- src/resource/download.rs: the thread that writes a download, when its writes succeed.
use parsip.Base.{
  concat, if-cases, ℕ, ◌+◌, ◌≡◌, refl, sym, ap, ◌∙◌, List, [], ◌∷◌, ◌++◌, map, append_assoc,
  append-nil, map-append, subst, none, some, leb, ltb, length, arith,
}
use parsip.Io.{Error, Result, ok}
use parsip.Map.{HashMap, lookup-insert, nat_key, bytes_key}
use parsip.Resource.Keys.{resource_key}
use parsip.Disk.{Disk, append_to, content_of}
use parsip.Resource.Download.{
  Writer, buffer_write, flush_writer, receive, writer_step, join_writer, buffer_size,
}

concat-append : (xss : List (List ℕ)) (ys : List ℕ) → concat (xss ++ (ys ∷ [])) ≡ concat xss ++ ys
unfolding concat
concat-append [] ys = append-nil ys
concat-append (xs ∷ xss) ys =
    ap (xs ++◌) (concat-append xss ys) ∙ sym (append_assoc xs (concat xss) ys)

-- What the thread has taken: what is in the file, and what its buffer holds.
abbrev pub taken : Writer → Disk → List ℕ
taken w d = content_of w.file d ++ w.buffered

content_of-append_to :
    (f : ℕ) (bytes : List ℕ) (d : Disk)
    → content_of f (append_to f bytes d) ≡ content_of f d ++ bytes
unfolding append_to
content_of-append_to f bytes d =
    ground (arith, lookup-insert f f (content_of f d ++ bytes) d.contents)

-- `write_all` adds the bytes behind what was taken before.
record Added (bytes : List ℕ) (w : Writer) (d : Disk) (after : Writer × Disk) : Type 0 where
  pub adds : taken after.0 after.1 ≡ taken w d ++ bytes
  pub same_file : after.0.file ≡ w.file
  pub same_queue : after.0.queue ≡ w.queue
  pub same_names : after.1.names ≡ d.names
  pub same_returned : after.0.returned ≡ w.returned

buffer_write-Added :
    (bytes : List ℕ) (w : Writer) (d : Disk) → Added bytes w d (buffer_write none bytes w d)
unfolding buffer_write append_to
buffer_write-Added bytes w d =
    let flushed = append_to w.file w.buffered d in
    let flush_adds = content_of-append_to w.file w.buffered d in
    let direct : Added bytes w d (record w { buffered = [] }, append_to w.file bytes flushed) =
      record {
        adds =
            append-nil _
            ∙ content_of-append_to w.file bytes flushed
            ∙ ap (λ xs. xs ++ bytes) flush_adds;
        same_file = refl;
        same_queue = refl;
        same_names = refl;
        same_returned = refl;
      } in
    let cold : Added bytes w d (record w { buffered = bytes }, flushed) = record {
      adds = ap (λ xs. xs ++ bytes) flush_adds;
      same_file = refl;
      same_queue = refl;
      same_names = refl;
      same_returned = refl;
    } in
    let warm : Added bytes w d (record w { buffered = w.buffered ++ bytes }, d) = record {
      adds = sym (append_assoc (content_of w.file d) w.buffered bytes);
      same_file = refl;
      same_queue = refl;
      same_names = refl;
      same_returned = refl;
    } in
    if-cases (Added bytes w d) (leb buffer_size (length bytes)) _ _ direct (
      if-cases (Added bytes w d) (ltb buffer_size (length w.buffered + length bytes)) _ _ cold warm)

-- Everything that came, `all`, is in the file, in the buffer or in the channel, in this order.
pub record Holds (all : List ℕ) (w : Writer) (d : Disk) : Type 0 where
  pub waiting : List (List ℕ)
  pub queued : w.queue ≡ map some waiting
  pub running : w.returned ≡ none
  pub promised : taken w d ++ concat waiting ≡ all

pub send-Holds :
    (all chunk : List ℕ) (w : Writer) (d : Disk)
    → Holds all w d
    → Holds (all ++ chunk) (record w { queue = w.queue ++ (some chunk ∷ []) }) d
send-Holds all chunk w d v = record {
  waiting = v.waiting ++ (chunk ∷ []);
  queued = rw v.queued (sym (map-append some v.waiting (chunk ∷ [])));
  running = v.running;
  promised =
      rw (concat-append) (
        sym (append_assoc (taken w d) (concat v.waiting) chunk)
        ∙ ap (λ xs. xs ++ chunk) v.promised);
}

-- The thread takes a step: what came is still there.
pub record Kept (all : List ℕ) (file : ℕ) (names : HashMap (List ℕ) ℕ) (after : Writer × Disk)
    : Type 0 where
  pub holds : Holds all after.0 after.1
  pub same_file : after.0.file ≡ file
  pub same_names : after.1.names ≡ names

receive-Kept :
    (all chunk : List ℕ) (waiting : List (List ℕ)) (w : Writer) (d : Disk)
    → w.returned ≡ none
    → w.queue ≡ map some waiting
    → taken w d ++ (chunk ++ concat waiting) ≡ all
    → Kept all w.file d.names (receive none (some chunk) w d)
unfolding receive
receive-Kept all chunk waiting w d r e p =
    let a = buffer_write-Added chunk w d in
    record {
      holds = record {
        waiting = waiting;
        queued = a.same_queue ∙ e;
        running = a.same_returned ∙ r;
        promised =
            ap (λ xs. xs ++ concat waiting) a.adds
            ∙ append_assoc (taken w d) chunk (concat waiting)
            ∙ p;
      };
      same_file = a.same_file;
      same_names = a.same_names;
    }

pub writer_step-waiting :
    (all : List ℕ) (waiting : List (List ℕ)) (w : Writer) (d : Disk)
    → w.returned ≡ none
    → w.queue ≡ map some waiting
    → taken w d ++ concat waiting ≡ all
    → Kept all w.file d.names (writer_step none w d)
unfolding concat writer_step
writer_step-waiting all [] w d r e p =
    let idle : writer_step none w d ≡ (w, d) = ground (arith, r, e) in
    let same : Kept all w.file d.names (w, d) = record {
      holds = record { waiting = []; queued = e; running = r; promised = p };
      same_file = refl;
      same_names = refl;
    } in
    subst (Kept all w.file d.names) (sym idle) same
writer_step-waiting all (chunk ∷ waiting) w d r e p =
    let w' = record w { queue = map some waiting } in
    let takes : writer_step none w d ≡ receive none (some chunk) w' d = ground (arith, r, e) in
    subst (Kept all w.file d.names) (sym takes) (receive-Kept all chunk waiting w' d r refl p)

-- The thread has ended well, and the file holds everything.
unfoldable pub Flushed : List ℕ → ℕ → HashMap (List ℕ) ℕ → Result (Unit {0}) Error × Disk → Type 0
Flushed all file names (r, d) = (r ≡ ok tt) × (content_of file d ≡ all) × (d.names ≡ names)

-- Once the thread is asked to finish, it writes everything that came into the file.
pub join_writer-Flushed :
    (all : List ℕ) (waiting : List (List ℕ)) (w : Writer) (d : Disk)
    → w.returned ≡ none
    → taken w d ++ concat waiting ≡ all
    → Flushed all w.file d.names (join_writer (λ n. none) (map some waiting ++ (none ∷ [])) w d)
unfolding join_writer receive concat flush_writer Flushed append_to
join_writer-Flushed all [] w d r p =
    let ends : join_writer (λ n. none) (none ∷ []) w d ≡ (ok tt, append_to w.file w.buffered d) =
      ground (arith, r) in
    let flushed = content_of-append_to w.file w.buffered d ∙ sym (append-nil (taken w d)) ∙ p in
    subst (Flushed all w.file d.names) (sym ends) (refl, flushed, refl)
join_writer-Flushed all (chunk ∷ waiting) w d r p =
    let q = map some waiting ++ (none ∷ []) in
    let before : Writer = record w { queue = q } in
    let a = buffer_write-Added chunk before d in
    let (w', d') = buffer_write none chunk before d in
    let goes : join_writer (λ n. none) (some chunk ∷ q) w d ≡ join_writer (λ n. none) q w' d' =
      ground (arith, r) in
    let promised =
      ap (λ xs. xs ++ concat waiting) a.adds
      ∙ append_assoc (taken w d) chunk (concat waiting)
      ∙ p in
    let out = join_writer (λ n. none) q w' d' in
    let later = join_writer-Flushed all waiting w' d' (a.same_returned ∙ r) promised in
    let renamed =
      subst (λ (ns : HashMap (List ℕ) ℕ). Flushed all w'.file ns out) a.same_names later in
    subst (Flushed all w.file d.names) (sym goes)
      (subst (λ (f : ℕ). Flushed all f d.names out) a.same_file renamed)
