-- ===== src/Results/Delimited.antt =====
-- The block that `parse_result` reads.
use claude_discord_agent.Prelude.{◌+◌, ◌≡◌, refl, ap, ◌∙◌, some, none, ◌++◌, Text, length, arith}
use claude_discord_agent.Results.Search.{
  find, rfind, after, rfind-append, rfind-append_none, find-append, after_add, after-append,
  before-append, NoTailOverlap,
}
use claude_discord_agent.Results.Parse.{delimiter_open, delimiter_close, block_of, cut_block}

-- The opening delimiter is found where a text begins with it and does not hold it again.
rfind_open :
    (t : Text) → rfind delimiter_open t ≡ none → rfind delimiter_open (delimiter_open ++ t) ≡ some 0
unfolding rfind
rfind_open t h = rw h refl

rfind_past_close :
    (t : Text) → rfind delimiter_open t ≡ none → rfind delimiter_open (delimiter_close ++ t) ≡ none
unfolding rfind
rfind_past_close t h = rw h refl

find_close : (t : Text) → find delimiter_close (delimiter_close ++ t) ≡ some 0
unfolding find
find_close t = refl

open_no_overlap : (t : Text) → NoTailOverlap delimiter_open (delimiter_close ++ t)
open_no_overlap t = (
  refl,
  (
    refl,
    (
      refl,
      (
        refl,
        (
          refl,
          (
            refl,
            (
              refl,
              (
                refl,
                (
                  refl,
                  (
                    refl,
                    (
                      refl,
                      (
                        refl,
                        (
                          refl,
                          (
                            refl,
                            (
                              refl,
                              (
                                refl,
                                (
                                  refl,
                                  (
                                    refl,
                                    (refl, (refl, (refl, (refl, (refl, (refl, (refl, tt))))))),
                                  ),
                                ),
                              ),
                            ),
                          ),
                        ),
                      ),
                    ),
                  ),
                ),
              ),
            ),
          ),
        ),
      ),
    ),
  ),
)

close_no_overlap : (t : Text) → NoTailOverlap delimiter_close (delimiter_close ++ t)
close_no_overlap t = (refl, (refl, (refl, (refl, (refl, (refl, (refl, (refl, tt))))))))

-- The text behind the last opener is cut at the next closer.
block_of-opened :
    (prose tail : Text)
    → rfind delimiter_open tail ≡ none
    → block_of (prose ++ (delimiter_open ++ tail)) ≡ some (cut_block tail)
unfolding block_of
block_of-opened prose tail alone =
    let text = prose ++ (delimiter_open ++ tail) in
    let behind : after (length prose + 0 + length delimiter_open) text ≡ tail =
      ap (λ n. after n text) (omega arith)
      ∙ (after_add (length prose) (length delimiter_open) text
          ∙ (ap (after (length delimiter_open)) (after-append prose (delimiter_open ++ tail))
              ∙ after-append delimiter_open tail)) in
    rw
      (
        block_of,
        rfind-append delimiter_open prose (delimiter_open ++ tail) 0 (rfind_open tail alone),
      )
      (ap (λ t. some (cut_block t)) behind)

pub block_of-closed :
    (prose block rest : Text)
    → find delimiter_open block ≡ none
    → find delimiter_close block ≡ none
    → rfind delimiter_open rest ≡ none
    → block_of (prose ++ (delimiter_open ++ (block ++ (delimiter_close ++ rest)))) ≡ some block
block_of-closed prose block rest ho hc hr =
    let alone =
      rfind-append_none delimiter_open block (delimiter_close ++ rest) (open_no_overlap rest) ho
        (rfind_past_close rest hr) in
    let closed =
      find-append delimiter_close block (delimiter_close ++ rest) (close_no_overlap rest) hc
        (find_close rest) in
    block_of-opened prose (block ++ (delimiter_close ++ rest)) alone
    ∙ rw (cut_block, closed) (ap some (before-append block _))

pub block_of-unclosed :
    (prose block : Text)
    → rfind delimiter_open block ≡ none
    → find delimiter_close block ≡ none
    → block_of (prose ++ (delimiter_open ++ block)) ≡ some block
block_of-unclosed prose block ho hc = block_of-opened prose block ho ∙ rw (cut_block, hc) refl
