-- ===== src/Codec/LineStream/Polls.antt =====
-- Each poll of `Framed` over `LinesCodec`, and all of them (actix-codec/src/framed.rs).
use actix_net.Prelude.{
  ℕ, ◌≤◌, ◌<◌, ◌≡◌, refl, sym, ap, ◌∙◌, subst, Bool, true, false, List, [], ◌∷◌, ◌++◌, Option, none,
  some, length, is_empty, pending, ready, err, arith, append_assoc, length-append,
}
use actix_net.Codec.Utf8.{Bytes}
use actix_net.Codec.Newline.{IsMemchr}
use actix_net.Codec.Lines.Chunks.{IsScanned-append}
use actix_net.Codec.Framed.{ReadEvent, not_ready, failed, filled}
use actix_net.Codec.Framed.Read.{fill, with_reads, try_decode, next_loop, next_item, settle}
use actix_net.Codec.LineStream.{
  LineResult, lines, stream_of, IsScript, LineFramed, IsReading, unread, measure, lines_decoder,
}
use actix_net.Codec.LineStream.Tries.{LinePolled, IsKept, IsTried, try_decode-IsTried}

-- A poll of a transport that has `ls` still to return, and `n` steps at most to go.
abbrev pub IsPolled : List LineResult → ℕ → LineFramed × LinePolled → Type 0
IsPolled ls n (g, pending) =
    IsReading g g.io.reads × (ls ≡ lines (unread g g.io.reads)) × (measure g g.io.reads < n)
IsPolled ls n (g, ready none) = ls ≡ []
IsPolled ls n (g, ready (some r)) =
    IsReading g g.io.reads × (ls ≡ r ∷ lines (unread g g.io.reads)) × (measure g g.io.reads < n)

IsPolled-mono :
    (ls ks : List LineResult) (m n : ℕ) (r : LineFramed × LinePolled)
    → ks ≡ ls
    → m ≤ n
    → IsPolled ls m r
    → IsPolled ks n r
IsPolled-mono ls ks m n (g, pending) e h p = (p.0, e ∙ p.1, omega arith)
IsPolled-mono ls ks m n (g, ready none) e h p = e ∙ p
IsPolled-mono ls ks m n (g, ready (some r)) e h p = (p.0, e ∙ p.1, omega arith)

kept-IsReading :
    (f g : LineFramed) (es : List (ReadEvent (Unit {0})))
    → IsReading f es
    → IsKept f g
    → IsReading (with_reads g es) es
kept-IsReading f g es v k = record {
  unlimited = k.unlimited;
  scanned = k.scanned;
  script = rw k.same_eof v.script;
  live = k.live;
}

settle-IsPolled :
    (f : LineFramed) (es : List (ReadEvent (Unit {0})))
    (next : LineFramed → LineFramed × LinePolled) (t : LineFramed × Option LinePolled)
    → IsReading f es
    → ((g : LineFramed)
        → IsKept f g
        → g.eof ≡ false
        → g.read_buf ≡ f.read_buf
        → IsPolled (lines (unread f es)) (measure f es) (next g))
    → IsTried f (stream_of es) t
    → IsPolled (lines (unread f es)) (measure f es) (settle es next t)
settle-IsPolled f es next (g, none) v go t = go g t.0 t.1 t.2
settle-IsPolled f es next (g, some pending) v go t = absurd t
settle-IsPolled f es next (g, some (ready none)) v go t = t
settle-IsPolled f es next (g, some (ready (some r))) v go t = (
  kept-IsReading f g es v t.0,
  t.1,
  omega (
    arith,
    length-append f.read_buf (stream_of es),
    length-append g.read_buf (stream_of es),
    t.2,
  ),
)

script_end :
    (b : Bool) (es : List (ReadEvent (Unit {0}))) → IsScript b es → b ≡ true → stream_of es ≡ []
script_end true es h e = rw h refl
script_end false es h e = cc

IsScript-more :
    {b : Bool} (es : List (ReadEvent (Unit {0}))) → b ≡ false → IsScript b es → IsScript false es
IsScript-more es e h = subst (λ b. IsScript b es) e h

fill-IsReading :
    (f g : LineFramed) (bs : Bytes) (es : List (ReadEvent (Unit {0})))
    → IsReading f (filled bs ∷ es)
    → IsKept f g
    → g.eof ≡ false
    → IsReading (fill g bs) es
unfolding fill
fill-IsReading f g bs es v k more = record {
  unlimited = k.unlimited;
  scanned = IsScanned-append g.codec g.read_buf bs k.scanned;
  script = rw more (next bs (IsScript-more (filled bs ∷ es) (sym k.same_eof ∙ more) v.script));
  live = λ e. refl;
}
  where
    next : (bs : Bytes) → IsScript false (filled bs ∷ es) → IsScript (is_empty bs) es
    next [] h = h
    next (b ∷ bs) h = h

pause-IsReading :
    (f g : LineFramed) (es : List (ReadEvent (Unit {0})))
    → IsReading f (not_ready ∷ es)
    → IsKept f g
    → g.eof ≡ false
    → IsReading (with_reads g es) es
pause-IsReading f g es v k more = record {
  unlimited = k.unlimited;
  scanned = k.scanned;
  script = rw more (IsScript-more (not_ready ∷ es) (sym k.same_eof ∙ more) v.script);
  live = k.live;
}

unread-fill :
    (f g : LineFramed) (bs : Bytes) (es : List (ReadEvent (Unit {0})))
    → g.read_buf ≡ f.read_buf
    → unread f (filled bs ∷ es) ≡ unread (fill g bs) es
unfolding fill
unread-fill f g bs es same = rw (same, append_assoc f.read_buf bs (stream_of es)) refl

module _ (memchr : ℕ → Bytes → Option ℕ) (memchr-first : IsMemchr memchr) where
  abbrev attempt : LineFramed → LineFramed × Option LinePolled
  attempt f = try_decode (lines_decoder memchr) (λ e. e) f

  next_loop-IsPolled :
      (es : List (ReadEvent (Unit {0}))) (f : LineFramed)
      → IsReading f es
      → IsPolled
          (lines (unread f es))
          (measure f es)
          (next_loop (lines_decoder memchr) (λ e. e) f es)
  unfolding next_loop
  next_loop-IsPolled [] f v =
      settle-IsPolled f [] (λ g. (with_reads g [], pending)) (attempt f) v
        (λ g k more same. absurd (IsScript-more [] (sym k.same_eof ∙ more) v.script))
        (try_decode-IsTried memchr memchr-first f [] [] v (λ e. refl))
  next_loop-IsPolled (not_ready ∷ es) f v =
      settle-IsPolled f (not_ready ∷ es) (λ g. (with_reads g es, pending)) (attempt f) v
        (λ g k more same. (
          pause-IsReading f g es v k more,
          ap (λ bs. lines (bs ++ stream_of es)) (sym same),
          rw same (omega arith),
        ))
        (try_decode-IsTried memchr memchr-first f (not_ready ∷ es) (stream_of es) v
          (script_end f.eof (not_ready ∷ es) v.script))
  next_loop-IsPolled (failed x ∷ es) f v =
      settle-IsPolled f (failed x ∷ es) (λ g. (with_reads g es, ready (some (err x)))) (attempt f) v
        (λ g k more same. absurd (IsScript-more (failed x ∷ es) (sym k.same_eof ∙ more) v.script))
        (try_decode-IsTried memchr memchr-first f (failed x ∷ es) (stream_of es) v
          (script_end f.eof (failed x ∷ es) v.script))
  next_loop-IsPolled (filled bs ∷ es) f v =
      settle-IsPolled f (filled bs ∷ es)
        (λ g. next_loop (lines_decoder memchr) (λ e. e) (fill g bs) es) (attempt f) v
        (λ g k more same.
          let joined : unread f (filled bs ∷ es) ≡ unread (fill g bs) es =
            unread-fill f g bs es same in
          IsPolled-mono (lines (unread (fill g bs) es)) _ (measure (fill g bs) es) _ _
            (ap lines joined) (omega (arith, ap length joined))
            (next_loop-IsPolled es (fill g bs) (fill-IsReading f g bs es v k more)))
        (try_decode-IsTried memchr memchr-first f (filled bs ∷ es) (bs ++ stream_of es) v
          (script_end f.eof (filled bs ∷ es) v.script))

  -- One poll returns the first line of what is unread, waits with nothing lost, or ends the stream
  -- when there is no line left; each time there is less to read.
  pub next_item-IsPolled :
      (f : LineFramed)
      → IsReading f f.io.reads
      → IsPolled
          (lines (unread f f.io.reads))
          (measure f f.io.reads)
          (next_item (lines_decoder memchr) (λ e. e) f)
  next_item-IsPolled f v = unfold next_item in next_loop-IsPolled f.io.reads f v
