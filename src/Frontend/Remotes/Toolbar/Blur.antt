-- ===== src/Frontend/Remotes/Toolbar/Blur.antt =====
-- Leaving the input of the name, on the page and in the backend.
