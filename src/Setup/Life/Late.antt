-- ===== src/Setup/Life/Late.antt =====
-- frontend/app/setup/page.tsx: an answer that arrives after the page was left.
use go_analyze.Setup.Life.{Life}
