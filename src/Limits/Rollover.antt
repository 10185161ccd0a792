-- ===== src/Limits/Rollover.antt =====
-- The windows of x/limits follow one another: a window that has run out is replaced by a new one.
use aegis_link.Text.{Text}
