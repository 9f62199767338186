-- ===== src/Robots/Parser/Limits.antt =====
-- What the parser of src/robots.c keeps within its limits, whatever the file.
use botshield.Prelude.{
  ℕ, ◌+◌, ◌≤◌, ◌≡◌, refl, Bool, true, false, Option, none, some, List, [], ◌∷◌, Bytes, codes, arith,
  ltb, leb, ◌==◌, if◌then◌else◌, length, inl, inr, Bool-cases, Every, subst,
}
use botshield.Robots.Agents.{equal_nocase}
use botshield.Robots.Names.{rstrip}
use botshield.Robots.Parser.{
  Seconds, Parser, flush_group, skip_blanks, add_ua, add_rule, accepted_delay, set_crawl_delay,
  handle_key, handle_pair, handle_line, before_hash, take_line, split_lines, take_lines,
  empty_parser, skip_bom, parse, max_bytes, max_line, max_groups,
}
use botshield.Robots.Parser.Groups.{
  IsListed, ParserOk, flush-ParserOk, add_ua-ParserOk, rule_at-ParserOk, delay_at-ParserOk,
}

if-ParserOk : (b : Bool) (s t : Parser) → ParserOk s → ParserOk t → ParserOk (if b then s else t)
if-ParserOk true s t hs ht = hs
if-ParserOk false s t hs ht = ht

accepted-short :
    (o : Option Seconds) (ms : ℕ)
    → ((v : Seconds) → o ≡ some v → v.is_over ≡ false → v.milliseconds ≤ 3600000)
    → accepted_delay o ≡ some ms
    → ms ≤ 3600000
accepted-short none ms short h = absurd (ground (arith, h))
accepted-short (some v) ms short h = ground (arith, h, short v refl)

module _ (strtod : Bytes → Option Seconds)
    (hour : (text : Bytes) (v : Seconds)
      → strtod text ≡ some v
      → v.is_over ≡ false
      → v.milliseconds ≤ 3600000) where
  handle_key-ParserOk :
      (st : Parser) (key value : Bytes) → ParserOk st → ParserOk (handle_key strtod st key value)
  unfolding handle_key add_ua add_rule set_crawl_delay
  handle_key-ParserOk st key value ok =
      let ua = add_ua-ParserOk st (skip_blanks value) ok in
      let disallow = rule_at-ParserOk st value false st.cur ok ok.cur_ok in
      let allow = rule_at-ParserOk st value true st.cur ok ok.cur_ok in
      let delay =
        delay_at-ParserOk st (accepted_delay (strtod value)) st.cur
          (λ ms e. accepted-short (strtod value) ms (hour value) e) ok ok.cur_ok in
      if-ParserOk (length key == 0) _ _ ok (
        if-ParserOk (equal_nocase key (codes "user-agent")) _ _ ua (
          if-ParserOk (equal_nocase key (codes "disallow")) _ _ disallow (
            if-ParserOk (equal_nocase key (codes "allow")) _ _ allow
              (if-ParserOk (equal_nocase key (codes "crawl-delay")) _ _ delay ok))))

  handle_pair-ParserOk :
      (st : Parser) (o : Option (Bytes × Bytes)) → ParserOk st → ParserOk (handle_pair strtod st o)
  handle_pair-ParserOk st none ok = ok
  handle_pair-ParserOk st (some (key, value)) ok =
      handle_key-ParserOk st (rstrip key) (rstrip (skip_blanks value)) ok

  take_line-ParserOk :
      (st : Parser) (line : Bytes) → ParserOk st → ParserOk (take_line strtod st line)
  unfolding take_line handle_line
  take_line-ParserOk st [] ok = ok
  take_line-ParserOk st (c ∷ line) ok =
      let counted : ParserOk (
          if leb max_line (length (c ∷ line))
          then record st { truncated_lines = st.truncated_lines + 1 }
          else st) =
        if-ParserOk (leb max_line (length (c ∷ line))) _ st
          (record { few = ok.few; listed = ok.listed; cur_ok = ok.cur_ok }) ok in
      handle_pair-ParserOk _ _ counted

  take_lines-ParserOk :
      (lines : List Bytes) (st : Parser) → ParserOk st → ParserOk (take_lines strtod st lines)
  unfolding take_lines
  take_lines-ParserOk [] st ok = ok
  take_lines-ParserOk (line ∷ lines) st ok =
      take_lines-ParserOk lines (take_line strtod st (before_hash line))
        (take_line-ParserOk st (before_hash line) ok)

  -- Whatever the bytes of a file of no more than a mebibyte, and if a number of seconds that is not
  -- above the limit has at most 3,600,000 milliseconds: the document has at most 64 groups; each has
  -- 1 to 32 agents, none of them empty, and the name of the first; at most 256 rules, none with an
  -- empty pattern; and a delay of an hour at most. A larger file gives no document.
  pub parse-IsListed :
      (buf : Bytes) (doc : Parser)
      → parse strtod buf ≡ some doc
      → (length buf ≤ max_bytes) × (length doc.groups ≤ max_groups) × Every IsListed doc.groups
  unfolding parse
  parse-IsListed buf doc h = elim (Bool-cases (ltb max_bytes (length buf))) [
    | inl e ↦ absurd (ground (arith, h, e))
    | inr e ↦
        let st : Parser = take_lines strtod empty_parser (split_lines (skip_bom buf)) in
        let ok = flush-ParserOk st (
          take_lines-ParserOk (split_lines (skip_bom buf)) empty_parser
            (record { few = omega arith; listed = tt; cur_ok = tt })) in
        let same : some (flush_group st) ≡ some doc = rw (parse, e) at h in
        let is_doc : flush_group st ≡ doc = cc in
        let (few, listed) =
          subst (λ (d : Parser). (length d.groups ≤ max_groups) × Every IsListed d.groups) is_doc
            (ok.few, ok.listed) in
        (ground (arith, e), few, listed)
  ]
