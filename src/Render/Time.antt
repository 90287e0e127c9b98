-- ===== src/Render/Time.antt =====
-- src/renderers/pattern_renderer.cpp: `PatternRenderer::format_time`.
use sy_log.Host.{Host, format_padded}
use sy_log.Prelude.{ℕ, ◌+◌, ◌∷◌, ◌++◌, Bytes, take}

-- "%04d-%02d-%02d %02d:%02d:%02d" into a buffer of 32 bytes, the last of which is the terminator.
unfoldable pub format_time : Host → ℕ → Bytes
unfolding format_padded
format_time host tp =
    let tm = host.local_time tp in
    take 31 (
      format_padded 4 (tm.year + 1900)
      ++ b'-'
        ∷ (format_padded 2 (tm.mon + 1)
            ++ b'-'
              ∷ (format_padded 2 tm.mday
                  ++ b' '
                    ∷ (format_padded 2 tm.hour
                        ++ b':' ∷ (format_padded 2 tm.min ++ b':' ∷ format_padded 2 tm.sec)))))
